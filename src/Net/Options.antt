-- ===== src/Net/Options.antt =====
-- Where the option that dhcp_option of pkg/stam/net.c finds lies, for any message.
use verkos.Prelude.{
  ℕ, zero, suc, ◌+◌, ◌≤◌, ◌≡◌, refl, ap, ◌∙◌, ◌⊎◌, inl, List, arith, length, get_or,
}
use verkos.Net.Config.{option_from, dhcp_option}

-- No option, or one that lies in the message behind the fixed part.
abbrev pub InMessage : List ℕ → ℕ × ℕ → Type 0
InMessage p (o, l) = (o ≡ 0 × l ≡ 0) ⊎ (242 ≤ o × o + l ≤ length p)

option_from-InMessage :
    (fuel : ℕ) (p : List ℕ) (want i : ℕ) → 240 ≤ i → InMessage p (option_from fuel p want i)
unfolding option_from
option_from-InMessage zero p want i h = inl (refl, refl)
option_from-InMessage (suc fuel) p want i h = ground (
  arith,
  option_from-InMessage fuel p want (i + 1),
  option_from-InMessage fuel p want (i + 2 + get_or p (i + 1) 0),
  h,
)

option_from_more :
    (fuel : ℕ) (p : List ℕ) (want i : ℕ)
    → length p ≤ i + fuel
    → option_from (suc fuel) p want i ≡ option_from fuel p want i
unfolding option_from
option_from_more zero p want i h = ground (arith, h)
option_from_more (suc fuel) p want i h =
    let pad = option_from_more fuel p want (i + 1) (omega (arith, h)) in
    let next = option_from_more fuel p want (i + 2 + get_or p (i + 1) 0) (omega (arith, h)) in
    again (suc fuel) fuel p want i pad next
  where
    again :
        (f g : ℕ) (p : List ℕ) (want i : ℕ)
        → option_from f p want (i + 1) ≡ option_from g p want (i + 1)
        → option_from f p want (i + 2 + get_or p (i + 1) 0)
          ≡ option_from g p want (i + 2 + get_or p (i + 1) 0)
        → option_from (suc f) p want i ≡ option_from (suc g) p want i
    again f g p want i a b = rw (a, b) refl

option_from_enough :
    (k fuel : ℕ) (p : List ℕ) (want i : ℕ)
    → length p ≤ i + fuel
    → option_from (k + fuel) p want i ≡ option_from fuel p want i
option_from_enough zero fuel p want i h = ap (λ f. option_from f p want i) (omega arith)
option_from_enough (suc k) fuel p want i h =
    ap (λ f. option_from f p want i) (omega arith)
    ∙ option_from_more (k + fuel) p want i (omega (arith, h))
    ∙ option_from_enough k fuel p want i h

-- Whatever a message holds, the option that is found lies in it with its whole length, behind the fixed
-- part; and the loop has ended: more rounds would answer the same.
pub dhcp_option-InMessage :
    (p : List ℕ) (want k : ℕ)
    → InMessage p (dhcp_option p want)
      × (option_from (k + length p) p want 240 ≡ dhcp_option p want)
unfolding dhcp_option
dhcp_option-InMessage p want k = (
  option_from-InMessage (length p) p want 240 (omega arith),
  option_from_enough k (length p) p want 240 (omega arith),
)
