-- ===== src/ZmqPub/Sequence.antt =====
-- The sequence numbers of ZmqPub::SendMessage.
use xayax.Prelude.{ℕ, ◌+◌, ◌*◌, ◌%◌, ◌^◌, ◌<◌, String, List, [], ◌∷◌, ◌≡◌, arith, ite}
use xayax.Prelude.Texts.{str_discrete}
use xayax.Prelude.Maps.{lookup, insert, lookup-insert}
use xayax.Prelude.Action.{Post}
use xayax.ZmqPub.{JsonLib, Socket, ZmqPub}
use xayax.ZmqPub.Messages.{seq_bytes, send_message, or_zero}

-- The number that bytes stand for, lowest first.
abbrev pub value : List ℕ → ℕ
value [] = 0
value (b ∷ bs) = b + 256 * value bs

-- The four bytes that go with a message stand for its sequence number, and nothing of it is left over,
-- so that the CHECK after the loop passes.
pub seq_bytes-value :
    (seq : ℕ) → seq < 2 ^ 32 → (value (seq_bytes 4 seq).0 ≡ seq) × ((seq_bytes 4 seq).1 ≡ 0)
unfolding seq_bytes
seq_bytes-value seq h = (omega arith, omega arith)

module _ {Json Wire : Type 0} (json : JsonLib Json) (socket : Socket Wire) where
  -- The number that the next message of a command carries.
  abbrev pub seq_of : String → ZmqPub Wire → ℕ
  seq_of cmd z = or_zero (lookup cmd z.next_seq)

  -- A message that is sent counts up the number of its own command, modulo 2 ^ 32, and of no other; if
  -- the sending throws, no number changes. The table of games stays in both cases.
  pub send_message-seq_of :
      (cmd other : String) (val : Json) (z : ZmqPub Wire)
      → Post
          (λ _ z'.
            (seq_of other z'
              ≡ ite (str_discrete cmd other) ((seq_of cmd z + 1) % 2 ^ 32) (seq_of other z))
            × (z'.games ≡ z.games))
          (λ z'. (seq_of other z' ≡ seq_of other z) × (z'.games ≡ z.games))
          (Unit {0})
          (send_message json socket cmd val z)
  unfolding send_message
  send_message-seq_of cmd other val z = ground (
    arith,
    lookup-insert cmd other (seq_of cmd z) z.next_seq,
    lookup-insert cmd other ((seq_of cmd z + 1) % 2 ^ 32) (insert cmd (seq_of cmd z) z.next_seq),
  )
