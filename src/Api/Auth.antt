-- ===== src/Api/Auth.antt =====
-- `BasicAuthMiddleware` of src/api/auth.rs. Base 64 and the text of a header are not under src/.
pub mod Secret
use mwc.Prelude.{
  Bool, true, false, ◌++◌, Option, none, some, Bytes, codes, bytes_eq, if◌then◌else◌, Outcome, ok,
  ◌>>=◌, unwrap,
}
use mwc.ErrorKind.{ErrorKind}

-- What the middleware does with a request.
pub data Answer : Type 0 where
  chained unauthorized : Answer

module _ (to_base64 : Bytes → Bytes) (to_str : Bytes → Option Bytes) where
  -- The header that a secret asks for.
  abbrev pub basic : Bytes → Bytes
  basic secret = codes "Basic " ++ to_base64 (codes "mwc:" ++ secret)

  -- `BasicAuthMiddleware::new`
  abbrev pub new : Option Bytes → Option Bytes
  new none = none
  new (some secret) = some (basic secret)

  -- `.map(|x| x.to_str().unwrap().to_string())`
  abbrev pub header_text : Option Bytes → Outcome ErrorKind (Option Bytes)
  header_text none = ok none
  header_text (some x) = do text ← unwrap (to_str x); ok (some text)

  abbrev pub accepts : Bytes → Option Bytes → Bool
  accepts expected none = false
  accepts expected (some x) = bytes_eq expected x

  -- `call`, by the header of the request
  unfoldable pub call : Option Bytes → Option Bytes → Outcome ErrorKind Answer
  call none header = ok chained
  call (some expected) header = do
    auth ← header_text header
    ok (if accepts expected auth then chained else unauthorized)
