-- ===== src/Sync/Transfer.antt =====
-- One half of the synchronization: afterwards the receiver has all that the sender has.
use ciphermesh.Prelude.{
  ℕ, ◌<◌, String, some, List, [], ◌∷◌, map, ◌≡◌, refl, ap, inl, inr, ◌⊎◌, Member, string_ord,
  get_or, le_or_lt,
}
use ciphermesh.BTree.{lookup}
use ciphermesh.Storage.Records.{EventRecord}
use ciphermesh.Storage.Events.{EventTables, append_events, version_vector, missing_events_for}
use ciphermesh.Storage.Events.Vector.{IsSound, append_events-IsSound}
use ciphermesh.Storage.Events.Missing.{
  Holds, Holds-append_from, append_from-Holds, mem-missing_events_for,
}
use ciphermesh.Storage.Events.World.{
  Identities, RowsIn, append_from-there, RowsIn-append_from, seen-Holds,
}
use ciphermesh.Sync.{SyncEvent, to_sync_event, from_sync_event, Wire, ok, transfer}

-- What is serialized is read back.
pub record WireLaws (wire : Wire) : Type 0 where
  pub read_back :
      (es : List SyncEvent)
      → (bytes : List ℕ) × (wire.serialize es ≡ some bytes) × (wire.deserialize bytes ≡ some es)

map-from-to : (es : List EventRecord) → map from_sync_event (map to_sync_event es) ≡ es
map-from-to [] = refl
map-from-to (e ∷ es) = ap (◌∷◌ e) (map-from-to es)

abbrev pub sent : String → EventTables → EventTables → List EventRecord
sent conversation from to = missing_events_for conversation (version_vector conversation to) from

abbrev pub received : String → EventTables → EventTables → EventTables
received conversation from to = (append_events (sent conversation from to) to).1

-- The wire changes nothing.
pub transfer_lem :
    (wire : Wire) (conversation : String) (from to : EventTables)
    → WireLaws wire
    → transfer wire conversation from to
      ≡ ok (sent conversation from to, received conversation from to)
unfolding transfer
transfer_lem wire conversation from to laws =
    let (bytes, out, back) = laws.read_back (map to_sync_event (sent conversation from to)) in
    rw (out, back, map-from-to (sent conversation from to))

pub received-IsSound :
    (conversation : String) (from to : EventTables)
    → IsSound to
    → IsSound (received conversation from to)
received-IsSound conversation from to = append_events-IsSound (sent conversation from to) to

pub received-keeps :
    (x : EventRecord) (conversation : String) (from to : EventTables)
    → Holds x to
    → Holds x (received conversation from to)
unfolding append_events
received-keeps x conversation from to = Holds-append_from x 0 (sent conversation from to) to

-- Nothing comes that was on neither side.
pub received-Holds :
    (x : EventRecord) (conversation : String) (from to : EventTables)
    → IsSound from
    → Holds x (received conversation from to)
    → Holds x from ⊎ Holds x to
unfolding append_events
received-Holds x conversation from to sound h =
    elim (append_from-Holds x 0 (sent conversation from to) to h) [
      | inl m ↦
          inl
            ((mem-missing_events_for conversation (version_vector conversation to) from x sound).0
              m).0
      | inr old ↦ inr old
    ]

module _ (Event : EventRecord → Type 0) (world : Identities Event) (conversation : String)
    (from to : EventTables) (sound : IsSound from) (sound' : IsSound to)
    (rows : RowsIn Event world from) (rows' : RowsIn Event world to) where
  sent-Event : (e : EventRecord) → Member e (sent conversation from to) → Event e
  sent-Event e m =
      rows _
        ((mem-missing_events_for conversation (version_vector conversation to) from e sound).0 m).0

  pub received-RowsIn : RowsIn Event world (received conversation from to)
  unfolding append_events
  received-RowsIn = RowsIn-append_from Event world 0 (sent conversation from to) to sent-Event rows'

  -- Every event of the conversation that the sender has is with the receiver afterwards.
  pub received_all :
      (x : EventRecord)
      → Holds x from
      → x.conversation_id ≡ conversation
      → 0 < x.counter
      → Holds x (received conversation from to)
  unfolding append_events
  received_all x h c above =
      elim (le_or_lt x.counter (get_or 0 (lookup x.device_id (version_vector conversation to)))) [
        | inl seen ↦
            received-keeps x conversation from to
              (seen-Holds Event world conversation to x rows' sound' (rows _ h) c above seen)
        | inr missing ↦
            append_from-there Event world x 0 (sent conversation from to) to sent-Event rows' sound'
              ((mem-missing_events_for conversation (version_vector conversation to) from x sound).1
                (h, c, missing))
      ]
