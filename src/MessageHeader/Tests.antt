-- ===== src/MessageHeader/Tests.antt =====
-- Message headers at concrete addresses.
use miya_core.Base.{ℕ, ◌≡◌, refl, some, List, [], ◌∷◌, ◌++◌, arith, replicate}
use miya_core.MessageHeader.{MessageHeader, export_message_header, import_message_header}
use miya_core.MessageHeader.Relays.{import_message_header-export}

abbrev relayed : MessageHeader
relayed = record {
  meta = replicate 22 0;
  source = some (replicate 26 1);
  relays = replicate 26 2 ∷ replicate 26 3 ∷ [];
}

abbrev empty : MessageHeader
empty = record { meta = replicate 22 9; source = some (replicate 26 9); relays = [] }

-- Of the relays 2 and 3 the second is lost, and the source stands before the first.
import_message_header-export_example :
    (raw : List ℕ) × (sent : MessageHeader) × (export_message_header relayed ≡ some (sent, raw))
    × (import_message_header empty (raw ++ 5 ∷ [])
        ≡ some (record {
          meta = sent.meta;
          source = some (replicate 26 1);
          relays = replicate 26 1 ∷ replicate 26 2 ∷ [];
        }))
import_message_header-export_example =
    import_message_header-export relayed empty (replicate 26 1) (replicate 26 9) (5 ∷ []) refl refl
      (refl, (refl, (refl, tt))) (omega arith) refl refl
