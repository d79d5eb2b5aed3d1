-- ===== src/Message/Swap.antt =====
-- Replying: `msg_reply` swaps the two ends of a message by three exclusive ors.
use Prim.Native.Nat.{bit_xor}
use brainix_old.Base.{ℕ, ◌≡◌, ◌∙◌, refl}
use brainix_old.Base.Bits.{xor_comm, xor_cancel}
use brainix_old.Message.{Msg, swap_ends}

-- a ^ (b ^ a)
xor_cancel_left : (a b : ℕ) → bit_xor a (bit_xor b a) ≡ b
xor_cancel_left a b = xor_comm a (bit_xor b a) ∙ xor_cancel b a

-- The exclusive ors of `msg_reply` exchange the sender and the receiver of a message, whatever
-- their numbers, and change nothing else.
pub swap_ends_lem :
    (x : Msg)
    → ((swap_ends x).to ≡ x.from)
      × ((swap_ends x).from ≡ x.to)
      × ((swap_ends x).mid ≡ x.mid)
      × ((swap_ends x).op ≡ x.op)
unfolding swap_ends
swap_ends_lem x = (
  rw (xor_cancel_left x.from x.to, xor_comm x.to x.from) (xor_cancel x.from x.to),
  xor_cancel_left x.from x.to,
  refl,
  refl,
)
