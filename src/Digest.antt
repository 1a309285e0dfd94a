-- ===== src/Digest.antt =====
-- The standard library's hashing and JSON quoting, as a parameter: texts stand for their UTF-8 bytes, and keys for
-- their own. Nothing is assumed of the functions.
use chitra.Prelude.{String}

pub record Digest : Type 0 where
  -- hashlib.sha256(text).hexdigest()
  pub sha256 : String → String
  -- hmac.new(key, text, hashlib.sha256).hexdigest()
  pub hmac_sha256 : String → String → String
  -- json.dumps(text, ensure_ascii=False)
  pub json_quote : String → String
