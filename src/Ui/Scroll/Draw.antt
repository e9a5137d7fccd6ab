-- ===== src/Ui/Scroll/Draw.antt =====
-- One drawing of the scrolling address: what it writes, and where the text stands afterwards.
use mathlib.Core.Path.{ap₂}
use mathlib.Core.List.{append_assoc}
use ledger_nano.Base.{
  ℕ, suc, ◌+◌, ◌≤◌, ◌<◌, ◌≡◌, sym, ap, ◌∙◌, List, [], ◌∷◌, ◌++◌, some, true, false, take, drop,
  length, arith, length-append, length-take, length-drop, take-append, read_bytes_in, ne→==,
}
use ledger_nano.Base.Int.{ℤ, pos, negsuc, ◌+ℤ◌, neg, is_ℤ}
use ledger_nano.Base.Exec.{ok, defined, ◌>>=◌, ◌>>◌}
use ledger_nano.Device.{Device}
use ledger_nano.Crypto.Address.Text.{IsShown, strlen-shown}
use ledger_nano.Ui.Memory.{memory, store, write_memory, read_memory, strlen_at, strcpy}
use ledger_nano.Ui.Memory.Laws.{
  HasSizes, patch, Written, write_memory-Written, length-memory, drop-patch,
}
use ledger_nano.Ui.Scroll.Position.{add_one, past_end}
use ledger_nano.Ui.Scroll.{
  pointer, ux_callback_set_interval, move_on, at_end, turn, turned, draw_window, scroll_on,
}

-- A C string in the memory.
pub record HasText (at : ℕ) (text m : List ℕ) : Type 0 where
  pub rest : List ℕ
  pub holds : drop at m ≡ text ++ (0 ∷ rest)
  pub shown : IsShown text

pub HasText-patch :
    (at : ℕ) (bs m : List ℕ) (at' : ℕ) (text : List ℕ)
    → at + length bs ≤ length m
    → at + length bs ≤ at'
    → HasText at' text m
    → HasText at' text (patch at bs m)
HasText-patch at bs m at' text inside behind h = record {
  rest = h.rest;
  holds = drop-patch at bs m inside at' behind ∙ h.holds;
  shown = h.shown;
}

module _ {Sha : Type 0} where
  strlen_at-HasText :
      (s : Device Sha) (at : ℕ) (text : List ℕ)
      → HasText at text (memory s)
      → strlen_at at s ≡ ok (length text) s
  unfolding strlen_at
  strlen_at-HasText s at text h = rw (◌>>=◌, h.holds, strlen-shown text h.rest h.shown)

  pub strcpy-HasText :
      (s : Device Sha) (to from : ℕ) (text : List ℕ)
      → HasSizes s
      → HasText from text (memory s)
      → from + length text < 176
      → strcpy to from s ≡ write_memory to (text ++ 0 ∷ []) s
  unfolding strcpy read_memory
  strcpy-HasText s to from text v h inside = rw (
    ◌>>=◌,
    strlen_at-HasText s from text h,
    read_bytes_in (memory s) from (length text + 1) (omega (arith, length-memory s v)),
    defined,
    copied,
  )
    where
      copied : take (length text + 1) (drop from (memory s)) ≡ text ++ 0 ∷ []
      copied =
          ap (λ m. take (length text + 1) m) (h.holds ∙ sym (append_assoc text (0 ∷ []) h.rest))
          ∙ take-append (length text + 1) (text ++ 0 ∷ []) h.rest
              (omega (arith, length-append text (0 ∷ [])))

  -- The bytes that a drawing writes, and the device behind it.
  abbrev pub window : ℕ → Device Sha → List ℕ
  window from s = take 15 (drop from (memory s))

  abbrev pub drawn : ℕ → Device Sha → Device Sha
  drawn from s =
      let s' = store (patch 88 (window from s) (memory s)) s in
      store (patch 104 (0 ∷ []) (memory s')) s'

  pub record Drawn (from : ℕ) (s : Device Sha) : Type 0 where
    pub returns : draw_window 88 s ≡ ok tt (drawn from s)
    pub bytes : memory (drawn from s) ≡ patch 104 (0 ∷ []) (patch 88 (window from s) (memory s))
    pub sizes : HasSizes (drawn from s)

  pub draw_window-Drawn :
      (s : Device Sha) (o : ℤ) (from : ℕ)
      → HasSizes s
      → s.current_offset ≡ o
      → pointer 124 o ≡ some from
      → from + 15 ≤ 176
      → Drawn from s
  unfolding draw_window read_memory
  draw_window-Drawn s o from v here points inside = record {
    returns = rw (
      ◌>>=◌,
      ◌>>◌,
      ap (λ o'. pointer 124 o') here ∙ points,
      read_bytes_in (memory s) from 15 (omega (arith, length-memory s v)),
      defined,
      first.returns,
      second.returns,
    );
    bytes = second.bytes ∙ ap (λ m. patch 104 (0 ∷ []) m) first.bytes;
    sizes = second.sizes;
  }
    where
      size : length (window from s) ≡ 15
      size = omega (
        arith,
        length-take 15 (drop from (memory s)),
        length-drop from (memory s),
        length-memory s v,
      )

      first : Written 88 (window from s) s
      first = write_memory-Written 88 (window from s) s v (omega arith) (omega (arith, size))

      second : Written 104 (0 ∷ []) (store (patch 88 (window from s) (memory s)) s)
      second = write_memory-Written 104 (0 ∷ []) _ first.sizes (omega arith) (omega arith)

  -- The device behind `current_offset += direction`.
  abbrev pub moved : Device Sha → Device Sha
  moved s = record s { current_offset = s.current_offset +ℤ s.direction }

  pub sum :
      (s : Device Sha) (o d : ℤ)
      → s.current_offset ≡ o
      → s.direction ≡ d
      → (s.current_offset +ℤ s.direction) ≡ (o +ℤ d)
  sum s o d ho hd = ap₂ (λ x y. x +ℤ y) ho hd

  pub at_end-text :
      (s : Device Sha) (at : ℕ) (text : List ℕ) (o : ℤ)
      → HasText at text (memory s)
      → s.current_offset ≡ o
      → is_ℤ o (negsuc 0) ≡ false
      → at_end at s ≡ ok (is_ℤ (o +ℤ pos 16) (pos (length text + 1))) s
  unfolding at_end
  at_end-text s at text o h ho left =
      rw (◌>>=◌, ap (λ o'. is_ℤ o' (negsuc 0)) ho ∙ left, strlen_at-HasText s at text h)
        (ap (λ o'. ok (is_ℤ (o' +ℤ pos 16) (pos (length text + 1))) s) ho)

  pub at_end-left :
      (s : Device Sha) (at : ℕ) → s.current_offset ≡ negsuc 0 → at_end at s ≡ ok true s
  unfolding at_end
  at_end-left s at ho = rw (◌>>=◌, ap (λ o'. is_ℤ o' (negsuc 0)) ho)

  -- Where no end is reached.
  pub scroll_on-same :
      (s : Device Sha) (text : List ℕ) (o d o' : ℤ)
      → HasText 124 text (memory s)
      → s.current_offset ≡ o
      → s.direction ≡ d
      → (o +ℤ d) ≡ o'
      → is_ℤ o' (negsuc 0) ≡ false
      → is_ℤ (o' +ℤ pos 16) (pos (length text + 1)) ≡ false
      → scroll_on 88 s ≡ ok tt (record s { current_offset = o'; callback_interval = 300 })
  unfolding scroll_on move_on ux_callback_set_interval memory
  scroll_on-same s text o d o' h ho hd next left right =
      let there = sum s o d ho hd ∙ next in
      rw (◌>>=◌, ◌>>◌, at_end-text (moved s) 124 text o' h there left, right)
        (ap (λ x. ok tt (record s { current_offset = x; callback_interval = 300 })) there)

  pub scroll_on-right :
      (s : Device Sha) (text : List ℕ) (k : ℕ)
      → HasText 124 text (memory s)
      → s.current_offset ≡ pos k
      → s.direction ≡ pos 1
      → k + 16 ≡ length text
      → scroll_on 88 s
        ≡ ok tt (record s {
          current_offset = pos (suc k);
          direction = negsuc 0;
          callback_interval = 1200;
        })
  unfolding scroll_on move_on turn turned ux_callback_set_interval memory
  scroll_on-right s text k h ho hd end =
      let there = sum s (pos k) (pos 1) ho hd ∙ add_one k in
      rw
        (
          ◌>>=◌,
          ◌>>◌,
          at_end-text (moved s) 124 text (pos (suc k)) h there (ne→== (suc k + 1) 0 (omega arith)),
          past_end (suc k) (length text) (omega arith),
          ap (λ d. is_ℤ (neg d) (pos 1)) hd,
        )
        (ap₂
          (λ x d.
            ok tt (record s { current_offset = x; direction = neg d; callback_interval = 1200 }))
          there hd)

  pub scroll_on-left :
      (s : Device Sha) (amt : List ℕ)
      → HasSizes s
      → HasText 160 amt (memory s)
      → length amt ≤ 15
      → s.current_offset ≡ pos 0
      → s.direction ≡ negsuc 0
      → scroll_on 88 s
        ≡ ok tt (record (store (patch 88 (amt ++ 0 ∷ []) (memory s)) s) {
          current_offset = negsuc 0;
          direction = pos 1;
          callback_interval = 3600;
        })
  unfolding scroll_on move_on at_end turn turned ux_callback_set_interval memory store
  scroll_on-left s amt v h short ho hd =
      let there = sum s (pos 0) (negsuc 0) ho hd in
      let back = record (moved s) { direction = neg s.direction } in
      let sizes : HasSizes back = record {
        words = v.words;
        address = v.address;
        address_copy = v.address_copy;
        line_1 = v.line_1;
        line_2 = v.line_2;
        current_output = v.current_output;
        display = v.display;
        out_address = v.out_address;
        amount = v.amount;
      } in
      rw
        (
          ◌>>=◌,
          ◌>>◌,
          at_end-left (moved s) 124 there,
          ap (λ d. is_ℤ (neg d) (pos 1)) hd,
          strcpy-HasText back 88 160 amt sizes h (omega arith),
          (write_memory-Written 88 (amt ++ 0 ∷ []) back sizes (omega arith)
              (omega (arith, length-append amt (0 ∷ [])))).returns,
        )
        (ap₂
          (λ x d. ok tt (record (store (patch 88 (amt ++ 0 ∷ []) (memory s)) s) {
            current_offset = x;
            direction = neg d;
            callback_interval = 3600;
          }))
          there hd)
