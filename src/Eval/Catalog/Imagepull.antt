-- ===== src/Eval/Catalog/Imagepull.antt =====
-- The incidents whose image cannot be pulled (`IMAGEPULL` of eval/catalog.py).
use coroner.Base.{true, List, [], ◌∷◌}
use coroner.Eval.Catalog.{Incident, Rubric, rubric, pull}

abbrev pub anon_403 : Rubric
anon_403 =
    rubric
      (("403" ∷ "forbidden" ∷ "authoriz" ∷ "does not exist" ∷ "private" ∷ "credential" ∷ "not found"
          ∷ [])
        ∷ [])
      []

abbrev pub denied : Rubric
denied =
    rubric
      (("denied" ∷ "does not exist" ∷ "authoriz" ∷ "not found" ∷ "private" ∷ "credential" ∷ [])
        ∷ [])
      []

abbrev pub tag : Rubric
tag = rubric (("tag" ∷ "manifest" ∷ "not found" ∷ "does not exist" ∷ "unknown" ∷ []) ∷ []) []

abbrev pub invalid : Rubric
invalid =
    rubric (("invalid" ∷ "reference" ∷ "format" ∷ "uppercase" ∷ "name" ∷ "malformed" ∷ []) ∷ []) []

abbrev pub unreachable : Rubric
unreachable =
    rubric
      (("no such host" ∷ "resolve" ∷ "unreachable" ∷ "dial" ∷ "timeout" ∷ "dns" ∷ "registry"
          ∷ "network" ∷ "connect" ∷ [])
        ∷ [])
      []

abbrev pub digest : Rubric
digest = rubric (("digest" ∷ "sha256" ∷ "not found" ∷ "manifest" ∷ "unknown" ∷ []) ∷ []) []

abbrev pub imagepull : List Incident
imagepull =
    pull "pull-ghcr-missing-1" "ghcr.io/saadhtiwana/coroner-does-not-exist:v0.0.0"
      "ghcr.io repository does not exist; registry answers 403 on the anonymous token" anon_403 true
    ∷ pull "pull-ghcr-missing-2" "ghcr.io/saadhtiwana/orders-api:v2.3.1"
        "ghcr.io repository does not exist; 403 on the anonymous token" anon_403 true
    ∷ pull "pull-ghcr-missing-3" "ghcr.io/acme-platform/payments:1.9.0"
        "ghcr.io organisation and repository do not exist; 403" anon_403 true
    ∷ pull "pull-ghcr-missing-4" "ghcr.io/saadhtiwana/coroner-agent:v9.9.9"
        "ghcr.io repository does not exist under this name; 403" anon_403 true
    ∷ pull "pull-ghcr-private-looking" "ghcr.io/github/internal-billing:latest"
        "a repository that, if it exists, is private; ghcr.io answers 403 either way" anon_403 true
    ∷ pull "pull-docker-missing-1" "docker.io/saadhtiwana/nope:1.0"
        "Docker Hub repository does not exist; pull access denied" denied true
    ∷ pull "pull-docker-missing-2" "saadhtiwana/coroner-nope:latest"
        "Docker Hub repository does not exist; pull access denied" denied true
    ∷ pull "pull-docker-missing-3" "acmecorp-internal/checkout:3.2"
        "Docker Hub repository does not exist; pull access denied" denied true
    ∷ pull "pull-wrong-tag-redis" "redis:99.99.99-nope"
        "the redis image exists but the tag does not; manifest unknown" tag true
    ∷ pull "pull-wrong-tag-nginx" "nginx:0.0.0-nope"
        "the nginx image exists but the tag does not; manifest unknown" tag true
    ∷ pull "pull-wrong-tag-alpine" "alpine:nonexistent-tag"
        "the alpine image exists but the tag does not; manifest unknown" tag true
    ∷ pull "pull-wrong-tag-busybox" "busybox:1.99.0"
        "the busybox image exists but the tag does not; manifest unknown" tag true
    ∷ pull "pull-quay-missing-1" "quay.io/saadhtiwana/nope:latest"
        "quay.io repository does not exist; unauthorized" denied true
    ∷ pull "pull-quay-missing-2" "quay.io/acme/worker:2.0"
        "quay.io repository does not exist; unauthorized" denied true
    ∷ pull "pull-gcr-missing" "gcr.io/saadhtiwana-nope/app:1"
        "gcr.io project does not exist; denied or not found" denied true
    ∷ pull "pull-invalid-uppercase" "Redis:Alpine"
        "the image name has uppercase letters, which is not a valid reference" invalid true
    ∷ pull "pull-invalid-double-colon" "redis::alpine" "the image reference is malformed" invalid
        true
    ∷ pull "pull-invalid-digest" "redis@sha256:notahexdigest" "the digest is not a valid sha256"
        invalid true
    ∷ pull "pull-unreachable-host" "registry.invalid/app:1" "the registry host does not resolve"
        unreachable true
    ∷ pull "pull-unreachable-ip" "10.255.255.1:5000/app:1"
        "the registry address does not answer; dial timeout" unreachable true
    ∷ pull "pull-bad-digest"
        "redis@sha256:0000000000000000000000000000000000000000000000000000000000000000"
        "a well-formed digest that no manifest has" digest true
    ∷ pull "pull-docker-missing-4" "library/definitely-not-an-image:1"
        "Docker Hub official-namespace repository does not exist" denied true
    ∷ []
