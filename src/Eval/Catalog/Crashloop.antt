-- ===== src/Eval/Catalog/Crashloop.antt =====
-- The incidents that crash in a loop (`CRASHLOOP` of eval/catalog.py).
use coroner.Base.{true, false, List, [], ◌∷◌, ◌++◌}
use coroner.Eval.Catalog.{Incident, rubric, crash, not_memory}

-- A fatal line is in the log.
abbrev pub fatal : List Incident
fatal =
    crash "crash-db-refused"
      "the application cannot reach Postgres at 10.96.31.14:5432; connection refused"
      "echo \"[startup] orders-api booting\"\necho \"[startup] connecting to postgres\"\nsleep 1\necho \"[error] dial tcp 10.96.31.14:5432: connect: connection refused\" >&2\necho \"[fatal] could not initialise connection pool after 1 attempt\" >&2\nexit 1\n"
      (rubric (("postgres" ∷ "database" ∷ "5432" ∷ "connection" ∷ []) ∷ []) not_memory) true "fatal"
    ∷ crash "crash-missing-config" "the config file /etc/app/config.yaml does not exist"
        "echo \"[startup] loading config\"\necho \"fatal: open /etc/app/config.yaml: no such file or directory\" >&2\nexit 1\n"
        (rubric
          (("config" ∷ [])
            ∷ ("no such file" ∷ "missing" ∷ "not found" ∷ "does not exist" ∷ [])
            ∷ [])
          not_memory)
        true "fatal"
    ∷ crash "crash-bad-flag" "the process was started with an unknown flag -workers"
        "echo \"flag provided but not defined: -workers\" >&2\necho \"usage: app [-port] [-db]\" >&2\nexit 2\n"
        (rubric (("flag" ∷ "-workers" ∷ "argument" ∷ "option" ∷ []) ∷ []) not_memory) true "fatal"
    ∷ crash "crash-port-in-use" "port 8080 is already bound by another process"
        "echo \"[startup] api listening\"\necho \"fatal: listen tcp :8080: bind: address already in use\" >&2\nexit 1\n"
        (rubric (("8080" ∷ "port" ∷ "address already in use" ∷ "bind" ∷ []) ∷ []) not_memory) true
        "fatal"
    ∷ crash "crash-permission-denied" "the process cannot write /var/log/app.log; permission denied"
        "echo \"[startup] opening log\"\necho \"fatal: open /var/log/app.log: permission denied\" >&2\nexit 1\n"
        (rubric (("permission" ∷ "denied" ∷ "/var/log/app.log" ∷ []) ∷ []) not_memory) true "fatal"
    ∷ crash "crash-missing-env" "the required environment variable STRIPE_KEY is not set"
        "echo \"[startup] checking configuration\"\necho \"fatal: required environment variable STRIPE_KEY is not set\" >&2\nexit 3\n"
        (rubric (("stripe_key" ∷ "environment variable" ∷ "env" ∷ []) ∷ []) not_memory) true "fatal"
    ∷ crash "crash-tls-expired" "the upstream TLS certificate has expired"
        "echo \"[startup] connecting to payments.internal:443\"\necho \"fatal: x509: certificate has expired or is not yet valid\" >&2\nexit 1\n"
        (rubric (("certificate" ∷ "x509" ∷ "tls" ∷ "expired" ∷ []) ∷ []) not_memory) true "fatal"
    ∷ crash "crash-dns" "db.internal does not resolve in cluster DNS"
        "echo \"[startup] resolving db.internal\"\necho \"fatal: lookup db.internal on 10.96.0.10:53: no such host\" >&2\nexit 1\n"
        (rubric (("dns" ∷ "resolve" ∷ "no such host" ∷ "lookup" ∷ "db.internal" ∷ []) ∷ [])
          not_memory)
        true "fatal"
    ∷ crash "crash-migration"
        "database migration 0042 fails because the orders relation does not exist"
        "echo \"[migrate] applying 0042_add_index\"\necho \"fatal: migration 0042_add_index failed: relation \\\"orders\\\" does not exist\" >&2\nexit 1\n"
        (rubric (("migration" ∷ "0042" ∷ "relation" ∷ "orders" ∷ []) ∷ []) not_memory) true "fatal"
    ∷ crash "crash-app-oom-abort"
        "the runtime aborted itself with an out-of-memory error; no kernel OOM kill and no memory limit"
        "echo \"[startup] building index\"\necho \"fatal error: runtime: out of memory\" >&2\necho \"goroutine 1 [running]:\" >&2\nexit 2\n"
        (rubric (("out of memory" ∷ "memory" ∷ []) ∷ []) []) true "fatal"
    ∷ crash "crash-redis-noauth" "Redis requires authentication and none was configured"
        "echo \"[startup] connecting to cache\"\necho \"fatal: NOAUTH Authentication required.\" >&2\nexit 1\n"
        (rubric (("auth" ∷ "noauth" ∷ "password" ∷ "credential" ∷ []) ∷ []) not_memory) true "fatal"
    ∷ crash "crash-disk-full" "the data volume is full; write fails with no space left on device"
        "echo \"[wal] appending segment 12\"\necho \"fatal: write /data/wal/000012: no space left on device\" >&2\nexit 1\n"
        (rubric (("no space" ∷ "disk" ∷ "volume" ∷ "space left" ∷ []) ∷ []) not_memory) true "fatal"
    ∷ crash "crash-nil-panic" "the application panics on a nil pointer dereference at startup"
        "echo \"[startup] wiring handlers\"\necho \"panic: runtime error: invalid memory address or nil pointer dereference\" >&2\necho \"[signal SIGSEGV: segmentation violation code=0x1 addr=0x0 pc=0x4a2f1c]\" >&2\necho \"goroutine 1 [running]:\" >&2\necho \"main.(*Server).wire(0x0)\" >&2\necho \"\\t/src/server.go:88 +0x1c\" >&2\nexit 2\n"
        (rubric (("nil pointer" ∷ "panic" ∷ "segmentation" ∷ "sigsegv" ∷ "dereference" ∷ []) ∷ [])
          ("memory limit" ∷ "oom" ∷ []))
        true "fatal"
    ∷ crash "crash-python-import" "a Python dependency, psycopg2, is not installed in the image"
        "echo \"Traceback (most recent call last):\"\necho \"  File \\\"/app/main.py\\\", line 3, in <module>\"\necho \"    import psycopg2\"\necho \"ModuleNotFoundError: No module named 'psycopg2'\"\nexit 1\n"
        (rubric (("psycopg2" ∷ "module" ∷ "dependency" ∷ "import" ∷ []) ∷ []) not_memory) true
        "fatal"
    ∷ crash "crash-java-classnotfound" "the JVM entry class com.acme.Main is missing from the jar"
        "echo \"Error: Could not find or load main class com.acme.Main\" >&2\necho \"Caused by: java.lang.ClassNotFoundException: com.acme.Main\" >&2\nexit 1\n"
        (rubric (("com.acme.main" ∷ "class" ∷ "classnotfound" ∷ "main class" ∷ []) ∷ []) not_memory)
        true "fatal"
    ∷ []

-- The log names no error.
abbrev pub no_clear_error : List Incident
no_clear_error =
    crash "crash-silent-after-chatter"
      "the process exits 1 after normal startup output and logs no reason"
      "echo \"[startup] booting v2.3.1\"\necho \"[startup] loading 3 plugins\"\necho \"[startup] plugins loaded\"\nsleep 1\nexit 1\n"
      (rubric [] []) false "no_clear_error"
    ∷ crash "crash-progress-then-exit-2" "the process exits 2 mid-batch and logs no reason"
        "for i in 1 2 3 4 5; do echo \"[batch] processed batch $i of 12\"; done\nexit 2\n"
        (rubric [] []) false "no_clear_error"
    ∷ crash "crash-warning-only"
        "the process exits 42 after a warning about a cold cache, which is not the cause"
        "echo \"[warn] cache cold, first requests will be slow\"\necho \"[info] ready\"\nsleep 1\nexit 42\n"
        (rubric [] []) false "no_clear_error"
    ∷ crash "crash-json-logs-no-error"
        "the process exits 1 after info-level JSON logs with no error entry"
        "echo '{\"level\":\"info\",\"msg\":\"listening\",\"port\":9000}'\necho '{\"level\":\"info\",\"msg\":\"ready\"}'\nsleep 1\nexit 1\n"
        (rubric [] []) false "no_clear_error"
    ∷ crash "crash-healthcheck-chatter" "the process exits 1 after logging successful health checks"
        "for i in 1 2 3; do echo \"[health] ok\"; sleep 1; done\nexit 1\n" (rubric [] []) false
        "no_clear_error"
    ∷ []

-- There is no log.
abbrev pub no_logs : List Incident
no_logs =
    crash "crash-silent-exit-1" "the process exits 1 with no output at all" "exit 1\n"
      (rubric [] []) false "no_logs"
    ∷ crash "crash-silent-exit-3" "the process exits 3 with no output at all" "sleep 1\nexit 3\n"
        (rubric [] []) false "no_logs"
    ∷ crash "crash-exit-137-no-limit"
        "exit 137, the conventional SIGKILL code, with no memory limit set and no output"
        "sleep 1\nexit 137\n" (rubric [] []) false "no_logs"
    ∷ crash "crash-exit-139-no-output" "exit 139, the conventional SIGSEGV code, with no output"
        "sleep 1\nexit 139\n" (rubric [] []) false "no_logs"
    ∷ crash "crash-exit-143-no-output" "exit 143, the conventional SIGTERM code, with no output"
        "sleep 1\nexit 143\n" (rubric [] []) false "no_logs"
    ∷ crash "crash-logs-to-file"
        "the process writes its fatal error to a file, not stdout, and exits 1"
        "echo \"fatal: license key rejected by server\" > /tmp/app.log\nexit 1\n" (rubric [] [])
        false "no_logs"
    ∷ []

abbrev pub crashloop : List Incident
crashloop = fatal ++ (no_clear_error ++ no_logs)
