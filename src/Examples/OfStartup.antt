-- ===== src/Examples/OfStartup.antt =====
-- An old ledger file.
use coroner.Base.{refl, arith}
use coroner.Ledger.Schema.{first_columns, migrations, opened}
use coroner.Ledger.Schema.Migrates.{IsAtVersion, IsCurrent, columns_of, file, opened-IsCurrent}

third_version : IsAtVersion 3 (columns_of 3)
unfolding migrations first_columns
third_version = record {
  supported = omega arith;
  complete = λ n h. h;
  distinct = (
    refl,
    (
      refl,
      (
        refl,
        (
          refl,
          (
            refl,
            (
              refl,
              (
                refl,
                (
                  refl,
                  (
                    refl,
                    (
                      refl,
                      (
                        refl,
                        (
                          refl,
                          (
                            refl,
                            (
                              refl,
                              (
                                refl,
                                (
                                  refl,
                                  (
                                    refl,
                                    (
                                      refl,
                                      (
                                        refl,
                                        (
                                          refl,
                                          (
                                            refl,
                                            (
                                              refl,
                                              (
                                                refl,
                                                (refl, (refl, (refl, (refl, (refl, (refl, tt)))))),
                                              ),
                                            ),
                                          ),
                                        ),
                                      ),
                                    ),
                                  ),
                                ),
                              ),
                            ),
                          ),
                        ),
                      ),
                    ),
                  ),
                ),
              ),
            ),
          ),
        ),
      ),
    ),
  );
}

opened-IsCurrent_example : IsCurrent (columns_of 3) (opened (file 3 (columns_of 3)))
opened-IsCurrent_example = opened-IsCurrent 3 (columns_of 3) third_version
