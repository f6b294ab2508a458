-- ===== src/Intel/Images.antt =====
-- internal/intel/images.go: image references, weak passwords and secret names.
use keelix.Prelude.{
  ℕ, suc, Bool, true, ◌||◌, List, [], ◌∷◌, Option, none, some, ltb, ◌==◌, if◌then◌else◌, any, take,
  drop, length,
}
use keelix.Text.{
  Text, codes, text_eq, trim_prefix, index, contains, last_index_byte, to_lower, trim_space,
}

-- strings.Index(s, "@") and the cut before it
before_at : Text → Text
before_at s = elim (index s (codes "@")) [ none ↦ s | some i ↦ take i s ]

drop_tag_after : Text → Option ℕ → Option ℕ → Text
drop_tag_after s (some slash) (some colon) = if ltb slash colon then take colon s else s
drop_tag_after s (some slash) none = s
drop_tag_after s none (some colon) = take colon s
drop_tag_after s none none = s

-- The tag is what follows the last colon, where that stands after the last slash.
drop_tag : Text → Text
drop_tag s = drop_tag_after s (last_index_byte s b'/') (last_index_byte s b':')

abbrev docker_hub_hosts : List Text
docker_hub_hosts = codes "docker.io" ∷ codes "index.docker.io" ∷ codes "registry-1.docker.io" ∷ []

is_docker_hub : Text → Bool
is_docker_hub host = any (λ h. text_eq h host) docker_hub_hosts

is_registry_host : Text → Bool
is_registry_host host = any (λ c. c == b'.' || c == b':') host || text_eq host (codes "localhost")

strip_library : Bool → Text → Text
strip_library hub s = if hub then trim_prefix s (codes "library/") else s

-- The registry host, and the namespace that only Docker Hub implies.
drop_host : Text → Option ℕ → Text
drop_host s none = strip_library true s
drop_host s (some slash) =
    if is_registry_host (take slash s)
    then strip_library (is_docker_hub (take slash s)) (drop (suc slash) s)
    else strip_library true s

-- ImageBase
unfoldable pub image_base : Text → Text
unfolding before_at drop_tag_after drop_tag is_docker_hub is_registry_host strip_library drop_host
image_base image =
    let s = drop_tag (before_at image) in to_lower (drop_host s (index s (codes "/")))

tag_after : Text → Option ℕ → Option ℕ → Text
tag_after s slash none = []
tag_after s none (some colon) = drop (suc colon) s
tag_after s (some slash) (some colon) = if ltb slash colon then drop (suc colon) s else []

-- ImageTag
unfoldable pub image_tag : Text → Text
unfolding before_at tag_after
image_tag image =
    let s = before_at image in tag_after s (last_index_byte s b'/') (last_index_byte s b':')

-- HasDigest
unfoldable pub has_digest : Text → Bool
has_digest image = contains image (codes "@sha256:")

abbrev weak_passwords : List Text
weak_passwords =
    codes "password"
    ∷ codes "passwd"
    ∷ codes "admin"
    ∷ codes "administrator"
    ∷ codes "root"
    ∷ codes "toor"
    ∷ codes "changeme"
    ∷ codes "change-me"
    ∷ codes "123456"
    ∷ codes "12345678"
    ∷ codes "123456789"
    ∷ codes "qwerty"
    ∷ codes "letmein"
    ∷ codes "secret"
    ∷ codes "default"
    ∷ codes "test"
    ∷ codes "postgres"
    ∷ codes "mysql"
    ∷ codes "redis"
    ∷ codes "mongo"
    ∷ codes "guest"
    ∷ codes "demo"
    ∷ codes "example"
    ∷ codes "password1"
    ∷ codes "abc123"
    ∷ codes "p@ssw0rd"
    ∷ codes "welcome"
    ∷ codes "admin123"
    ∷ []
    ∷ []

-- IsWeakPassword
unfoldable pub is_weak_password : Text → Bool
is_weak_password pw =
    ltb (length pw) 8 || any (λ w. text_eq w (to_lower (trim_space pw))) weak_passwords

abbrev secret_env_keywords : List Text
secret_env_keywords =
    codes "password"
    ∷ codes "passwd"
    ∷ codes "secret"
    ∷ codes "token"
    ∷ codes "api_key"
    ∷ codes "apikey"
    ∷ codes "private_key"
    ∷ codes "privatekey"
    ∷ codes "access_key"
    ∷ codes "accesskey"
    ∷ codes "credential"
    ∷ codes "_key"
    ∷ codes "auth"
    ∷ codes "jwt"
    ∷ codes "session_secret"
    ∷ codes "encryption"
    ∷ codes "dsn"
    ∷ []

-- IsSecretEnvName
unfoldable pub is_secret_env_name : Text → Bool
is_secret_env_name name = any (λ kw. contains (to_lower name) kw) secret_env_keywords
