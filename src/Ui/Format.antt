-- ===== src/Ui/Format.antt =====
-- The formats that src/ui/newTransaction.c passes to SPRINTF, which is `snprintf` on an array of
-- SCREEN_MAX_CHARS characters and so cuts its text to one less.
use ledger_nano.Base.{
  ℕ, zero, suc, ◌+◌, ◌-◌, ◌/◌, ◌%◌, ◌^◌, List, [], ◌∷◌, ◌++◌, ltb, ◌==◌, if◌then◌else◌, take,
}

abbrev pub screen_max_chars : ℕ
screen_max_chars = 16

abbrev pub sky_coins : ℕ
sky_coins = 1_000_000

-- The decimal digits of a number; the fuel is a bound on their count.
unfoldable pub decimal : ℕ → ℕ → List ℕ
decimal zero n = []
decimal (suc fuel) n =
    let front = decimal fuel (n / 10) in
    if ltb n 10 then (b'0' + n) ∷ [] else front ++ (b'0' + n % 10) ∷ []

-- `%d` on the 32 bits of an `int`.
unfoldable pub show_int : ℕ → List ℕ
show_int w = if ltb w (2 ^ 31) then decimal 10 w else b'-' ∷ decimal 10 (2 ^ 32 - w)

-- `%06d` on a number below a million.
unfoldable pub six_digits : ℕ → List ℕ
six_digits n =
    (b'0' + n / 100_000 % 10)
    ∷ (b'0' + n / 10_000 % 10)
    ∷ (b'0' + n / 1000 % 10)
    ∷ (b'0' + n / 100 % 10)
    ∷ (b'0' + n / 10 % 10)
    ∷ (b'0' + n % 10)
    ∷ []

-- `SPRINTF(tmp_cur_out, "%d/%d", curr_obj, out_num)`.
unfoldable pub output_display : ℕ → ℕ → List ℕ
unfolding show_int decimal
output_display curr_obj out_num =
    take (screen_max_chars - 1) (show_int curr_obj ++ (b'/' ∷ show_int out_num))

-- `while (tmp_amount[strlen(tmp_amount) - 1] == '0')`: the zeros at the end go.
unfoldable pub strip_zeros : List ℕ → List ℕ
strip_zeros [] = []
strip_zeros (c ∷ cs) = elim (strip_zeros cs) [
  | [] ↦ if c == b'0' then [] else c ∷ []
  | d ∷ ds ↦ c ∷ d ∷ ds
]

-- The text of an amount. The number of coins is cast to `int`.
unfoldable pub amount_display : ℕ → List ℕ
unfolding show_int decimal six_digits strip_zeros
amount_display coin_num = strip_zeros (
    take (screen_max_chars - 1)
      (show_int (coin_num / sky_coins % 2 ^ 32) ++ (b'.' ∷ six_digits (coin_num % sky_coins))))
