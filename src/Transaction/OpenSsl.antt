-- ===== src/Transaction/OpenSsl.antt =====
-- What the transactions and blocks call of OpenSSL through share/hash/sha_hash.cpp and
-- share/cipher/ecdsa_manager.cpp. No key is a null pointer.
use miya_core.Base.{ℕ, Bool, Option, List}
use miya_core.Script.Validator.{Crypto}

pub record OpenSsl : Type 1 where
  pub Key : Type 0
  pub sha1 : List ℕ → List ℕ
  pub sha256 : List ℕ → List ℕ
  pub to_pkey : List ℕ → Option Key
  pub to_raw_pub_key : Key → List ℕ
  pub sign : List ℕ → Option Key → List ℕ
  pub verify : List ℕ → List ℕ → Option Key → Bool

-- The part that the script validator calls.
abbrev pub crypto : OpenSsl → Crypto
crypto l = record { Key = Option l.Key; sha1 = l.sha1; to_pkey = l.to_pkey; verify = l.verify }
