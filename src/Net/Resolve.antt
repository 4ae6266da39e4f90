-- ===== src/Net/Resolve.antt =====
-- One exchange of ARP, in pkg/stam/net.c, tells each of two machines where the other is.
use verkos.Prelude.{
  ℕ, zero, suc, ◌^◌, ◌<◌, ◌≡◌, refl, ap, ◌∙◌, ◌≢◌, ◌⊎◌, inl, inr, Bool, true, false, not, ◌&&◌,
  ◌||◌, Option, none, some, List, [], ◌∷◌, arith, ltb, ◌==◌, length, get_or, set, take, drop,
  replicate, get_or-set, find_index, find_index_sound,
}
use verkos.Net.Wire.{get16, get32}
use verkos.Net.Stack.{ArpEntry, Stack, is_entry_of, arp_slot, arp_learn, arp_lookup, no_entry}
use verkos.Net.Datagram.{six, eth_header}
use verkos.Net.Arp.{arp_frame, arp_request, handle_arp}

find_index-set :
    (p : ArpEntry → Bool) (xs : List ArpEntry) (k : ℕ) (v : ArpEntry)
    → p v ≡ true
    → k < length xs
    → (find_index p xs ≡ none) ⊎ (find_index p xs ≡ some k)
    → find_index p (set xs k v) ≡ some k
unfolding find_index
find_index-set p [] k v y h o = absurd (omega (arith, h))
find_index-set p (x ∷ xs) zero v y h o = rw y refl
find_index-set p (x ∷ xs) (suc k) v y h (inl o) =
    rw (not_first, find_index-set p xs k v y (omega (arith, h)) (inl later)) refl
  where
    not_first : p x ≡ false
    not_first = ground (arith, o)

    later : find_index p xs ≡ none
    later = ground (arith, o)
find_index-set p (x ∷ xs) (suc k) v y h (inr o) =
    rw (not_first, find_index-set p xs k v y (omega (arith, h)) (inr later)) refl
  where
    not_first : p x ≡ false
    not_first = ground (arith, o)

    later : find_index p xs ≡ some k
    later = ground (arith, o)

slot_lem :
    (ip : ℕ) (arp : List ArpEntry)
    → 0 < length arp
    → (arp_slot ip arp < length arp)
      × ((find_index (is_entry_of ip) arp ≡ none)
          ⊎ (find_index (is_entry_of ip) arp ≡ some (arp_slot ip arp)))
slot_lem ip arp h =
    go (find_index (is_entry_of ip) arp) refl (find_index (λ e. not e.in_use) arp) refl
  where
    slot : Option ℕ → Option ℕ → ℕ
    slot own free = elim own [ some i ↦ i | none ↦ elim free [ some i ↦ i | none ↦ 0 ] ]

    go :
        (own : Option ℕ)
        → find_index (is_entry_of ip) arp ≡ own
        → (free : Option ℕ) → find_index (λ e. not e.in_use) arp ≡ free
        → (slot own free < length arp) × ((own ≡ none) ⊎ (own ≡ some (slot own free)))
    go (some i) e free f = ((find_index_sound (is_entry_of ip) arp no_entry i e).1, inr refl)
    go none e (some i) f = ((find_index_sound (λ x. not x.in_use) arp no_entry i f).1, inl refl)
    go none e none f = (h, inl refl)

-- What was learnt is found.
arp_lookup-arp_learn :
    (ip : ℕ) (mac : List ℕ) (st : Stack)
    → 0 < length st.arp
    → arp_lookup ip (arp_learn ip mac st) ≡ some mac
unfolding arp_lookup arp_learn
arp_lookup-arp_learn ip mac st h =
    let s = slot_lem ip st.arp h in
    let e : ArpEntry = record { ip = ip; mac = mac; in_use = true } in
    let own : is_entry_of ip e ≡ true = ground arith in
    let there = find_index-set (is_entry_of ip) st.arp (arp_slot ip st.arp) e own s.0 s.1 in
    let inside : ltb (arp_slot ip st.arp) (length st.arp) ≡ true = ground (arith, s.0) in
    let itself : (arp_slot ip st.arp == arp_slot ip st.arp
          && ltb (arp_slot ip st.arp) (length st.arp))
        ≡ true =
      ground (arith, inside) in
    let got : get_or (set st.arp (arp_slot ip st.arp) e) (arp_slot ip st.arp) no_entry ≡ e =
      get_or-set st.arp (arp_slot ip st.arp) (arp_slot ip st.arp) e no_entry ∙ rw itself refl in
    rw (arp_lookup, arp_learn, there, got) refl

-- What a frame of ARP says.
abbrev Says : List ℕ → List ℕ → ℕ → ℕ → ℕ → Type 0
Says r mac sender op target =
    (length r ≡ 60)
    × (get16 r 16 ≡ 2048)
    × (get_or r 18 0 ≡ 6)
    × (get_or r 19 0 ≡ 4)
    × (get16 r 20 ≡ op)
    × (get32 r 28 ≡ sender)
    × (get32 r 38 ≡ target)
    × (take 6 (drop 22 r) ≡ mac)

arp_frame-Says :
    (st : Stack) (dst : List ℕ) (op : ℕ) (target_mac : List ℕ) (target_ip : ℕ)
    → op < 2 ^ 16
    → st.my_ip < 2 ^ 32
    → target_ip < 2 ^ 32
    → Says (arp_frame st dst op target_mac target_ip) (six st.my_mac []) st.my_ip op target_ip
unfolding arp_frame eth_header get16 get32
arp_frame-Says st dst op target_mac target_ip h a b =
    (refl, refl, refl, refl, omega (arith, h), omega (arith, a), omega (arith, b), refl)

handle_arp_question :
    (r mac : List ℕ) (sender : ℕ) (st : Stack)
    → Says r mac sender 1 st.my_ip
    → st.my_ip ≢ 0
    → handle_arp r st ≡ (arp_learn sender mac st, some (arp_frame st mac 2 mac sender))
unfolding handle_arp
handle_arp_question r mac sender st s ne =
    let mine : (st.my_ip == 0 || not (st.my_ip == st.my_ip)) ≡ false = ground (arith, ne) in
    rw (s.0, s.1, s.2, s.3, s.4, s.5, s.6, s.7, mine) refl

handle_arp_answer :
    (r mac : List ℕ) (sender target : ℕ) (st : Stack)
    → Says r mac sender 2 target
    → handle_arp r st ≡ (arp_learn sender mac st, none)
unfolding handle_arp
handle_arp_answer r mac sender target st s = rw (s.0, s.1, s.2, s.3, s.4, s.5, s.7) refl

-- Two machines on one network, whatever they knew: one asks for the address of the other, which answers,
-- and afterwards each has the hardware address of the other under its address. The answering machine has
-- an address.
pub arp_exchange :
    (a b : Stack)
    → 0 < length a.arp
    → 0 < length b.arp
    → a.my_ip < 2 ^ 32
    → b.my_ip < 2 ^ 32
    → b.my_ip ≢ 0
    → let asked = handle_arp (arp_request a b.my_ip) b in
      let answer = arp_frame b (six a.my_mac []) 2 (six a.my_mac []) a.my_ip in
      (asked.1 ≡ some answer)
      × (arp_lookup a.my_ip asked.0 ≡ some (six a.my_mac []))
      × (arp_lookup b.my_ip (handle_arp answer a).0 ≡ some (six b.my_mac []))
unfolding arp_request
arp_exchange a b la lb ha hb ne =
    let q =
      handle_arp_question _ _ _ b
        (arp_frame-Says a (replicate 6 255) 1 (replicate 6 0) b.my_ip (omega arith) ha hb) ne in
    let r =
      handle_arp_answer _ _ _ _ a
        (arp_frame-Says b (six a.my_mac []) 2 (six a.my_mac []) a.my_ip (omega arith) hb ha) in
    (
      ap (λ k. k.1) q,
      ap (λ k. arp_lookup a.my_ip k.0) q ∙ arp_lookup-arp_learn a.my_ip (six a.my_mac []) b lb,
      ap (λ k. arp_lookup b.my_ip k.0) r ∙ arp_lookup-arp_learn b.my_ip (six b.my_mac []) a la,
    )
