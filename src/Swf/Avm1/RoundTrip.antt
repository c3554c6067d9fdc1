-- ===== src/Swf/Avm1/RoundTrip.antt =====
-- What `write_action` writes (swf/src/avm1/write.rs), `read_action` (swf/src/avm1/read.rs) reads back.
use ruffle.Prelude.{ℕ, ◌+◌, ◌≡◌, List, [], ◌∷◌, some, All, length, map}
use ruffle.Swf.Error.{ok}
use ruffle.Swf.ByteOrder.{ByteOrder}
use ruffle.Swf.Read.{read_many, advance}
use ruffle.Swf.Write.{write_each}
use ruffle.Swf.Decodes.{Decodes, Decodes-bind, Decodes-map, Decodes-pure, Decodes-at, reader_at}
use ruffle.Swf.Avm1.Types.{Action}
use ruffle.Swf.Avm1.Read.{read_action}
use ruffle.Swf.Avm1.Write.{write_action}
use ruffle.Swf.Avm1.Encodable.{IsEncodable}
use ruffle.Swf.Avm1.Actions.{ReadsBack-all}

module _ ⦃bo : ByteOrder⦄ where
  -- For every action within `IsEncodable`, at every place of every buffer: `write_action` does not
  -- panic, and where its bytes stand `read_action` returns that action and moves just past them.
  pub read_action-write_action :
      (action : Action) (before after : List ℕ)
      → IsEncodable action
      → (bytes : List ℕ) × (write_action action ≡ some bytes)
        × (read_action (reader_at before bytes after)
            ≡ (ok (some action), advance (length bytes) (reader_at before bytes after)))
  read_action-write_action action before after h =
      Decodes-at (ReadsBack-all action h).1 before after

  ReadsBack-list :
      (actions : List Action)
      → All IsEncodable actions
      → (n : ℕ) × Decodes
          (read_many (length actions) read_action)
          (write_each write_action actions)
          n
          (map some actions)
  unfolding read_many write_each
  ReadsBack-list [] h = (0, Decodes-pure [])
  ReadsBack-list (action ∷ actions) (h, hs) =
      let (m, d) = ReadsBack-all action h in
      let (n, e) = ReadsBack-list actions hs in
      (m + n, Decodes-bind _ d (Decodes-map (λ rest. some action ∷ rest) e))

  -- Actions within `IsEncodable`, written one after the other, are read back in order by as many
  -- calls of `read_action`, which stop where the bytes stop.
  pub read_actions-write_actions :
      (actions : List Action) (before after : List ℕ)
      → All IsEncodable actions
      → (bytes : List ℕ) × (write_each write_action actions ≡ some bytes)
        × (read_many (length actions) read_action (reader_at before bytes after)
            ≡ (ok (map some actions), advance (length bytes) (reader_at before bytes after)))
  read_actions-write_actions actions before after h =
      Decodes-at (ReadsBack-list actions h).1 before after
