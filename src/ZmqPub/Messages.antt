-- ===== src/ZmqPub/Messages.antt =====
-- ZmqPub::SendMessage of src/zmqpub.cpp.
use xayax.Prelude.{
  ℕ, zero, suc, ◌+◌, ◌/◌, ◌%◌, ◌^◌, String, true, false, List, [], ◌∷◌, Option, none, some, ◌==◌,
  if◌then◌else◌,
}
use xayax.Prelude.Maps.{lookup, insert}
use xayax.Prelude.Action.{Action, done, threw, aborted, ◌>>=◌, ◌>>◌, get, put, pure, throw, check}
use xayax.ZmqPub.{JsonLib, text, bytes, Socket, ZmqPub}

-- The loop over the bytes of `seq`, lowest first, with what is left of `seq`.
unfoldable pub seq_bytes : ℕ → ℕ → List ℕ × ℕ
seq_bytes zero seq = ([], seq)
seq_bytes (suc n) seq = let rest = seq_bytes n (seq / 2 ^ 8) in ((seq % 2 ^ 8) ∷ rest.0, rest.1)

-- The entry of a command, which starts at 0.
abbrev pub or_zero : Option ℕ → ℕ
or_zero none = 0
or_zero (some n) = n

module _ {Wire : Type 0} where
  abbrev pub on_wire : {A : Type 0} → Action Wire A → Action (ZmqPub Wire) A
  on_wire m z = elim (m z.wire) [
    | done a w ↦ done a (record z { wire = w })
    | threw w ↦ threw (record z { wire = w })
    | aborted ↦ aborted
  ]

module _ {Json Wire : Type 0} (json : JsonLib Json) (socket : Socket Wire) where
  -- The four bytes of a uint32_t are sent; its increment wraps.
  unfoldable pub send_message : String → Json → Action (ZmqPub Wire) (Unit {0})
  unfolding seq_bytes
  send_message cmd data' = do
    z ← get
    let seq = or_zero (lookup cmd z.next_seq)
    put (record z { next_seq = insert cmd seq z.next_seq })
    let (sent_bytes, left) = seq_bytes 4 seq
    check (left == 0)
    first ← on_wire (socket.send (text cmd) true)
    if first then pure tt else throw
    second ← on_wire (socket.send (text (json.write data')) true)
    check second
    third ← on_wire (socket.send (bytes sent_bytes) false)
    check third
    z' ← get
    put (record z' { next_seq = insert cmd ((seq + 1) % 2 ^ 32) z'.next_seq })
