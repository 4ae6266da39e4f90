-- ===== src/Net/Config.antt =====
-- dhcp_option of pkg/stam/net.c, which looks an option up in a message of DHCP.
use verkos.Prelude.{ℕ, zero, suc, ◌+◌, not, List, ltb, ◌==◌, if◌then◌else◌, length, get_or}

-- The loop from `i` on: the place of the option and its length, or 0 and 0. The end of the options and
-- the end of the message are out of fuel too.
unfoldable pub option_from : ℕ → List ℕ → ℕ → ℕ → ℕ × ℕ
option_from zero p want i = (0, 0)
option_from (suc fuel) p want i =
    let code = get_or p i 0 in
    let l = get_or p (i + 1) 0 in
    let past_pad = option_from fuel p want (i + 1) in
    let past = option_from fuel p want (i + 2 + l) in
    if not (ltb (i + 1) (length p))
    then (0, 0)
    else if code == 255
    then (0, 0)
    else if code == 0
    then past_pad
    else if ltb (length p) (i + 2 + l)
    then (0, 0)
    else if code == want
    then (i + 2, l)
    else past

unfoldable pub dhcp_option : List ℕ → ℕ → ℕ × ℕ
dhcp_option p want = option_from (length p) p want 240
