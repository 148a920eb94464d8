-- ===== src/Script/Parse.antt =====
-- Whatever Script::importRaw accepts, Script::exportRaw writes back byte for byte.
use miya_core.Base.{ℕ, ◌≡◌, List, ◌++◌}
use miya_core.Script.{Script}
use miya_core.Script.RoundTrip.{IsScript, encode}

-- What the bytes that were read amount to: the elements appended, whose raw form they are.
abbrev pub Reads : Script → List ℕ → Script → Type 0
Reads acc raw t = (s : Script) × (t ≡ acc ++ s) × IsScript s × (encode s ≡ raw)
