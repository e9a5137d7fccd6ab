-- ===== src/Ui/Scroll/Past.antt =====
-- A text that stands past its right end, as when an output is approved while a longer address was
-- there.
use mathlib.Core.Path.{subst}
use ledger_nano.Base.{
  ℕ, zero, suc, ◌+◌, ◌≤◌, ◌<◌, ◌≡◌, refl, sym, ap, ◌∙◌, List, [], ◌∷◌, arith, length, drop,
  length-take, length-drop, length-patch, ne→==, read_bytes_out,
}
use ledger_nano.Base.Int.{pos}
use ledger_nano.Base.Exec.{Exec, ok, fault, pure, ◌>>=◌, ◌>>◌}
use ledger_nano.Device.{Device}
use ledger_nano.Ui.Memory.{memory, store, read_memory}
use ledger_nano.Ui.Memory.Laws.{HasSizes, patch, length-memory}
use ledger_nano.Ui.Scroll.{pointer, description_line, draw_window}
use ledger_nano.Ui.Scroll.Position.{add_one, not_past}
use ledger_nano.Ui.Scroll.Draw.{
  HasText, HasText-patch, window, drawn, Drawn, draw_window-Drawn, scroll_on-same,
}
use ledger_nano.Ui.Scroll.Approving.{points}

module _ {Sha : Type 0} where
  pub record Past (text : List ℕ) (k : ℕ) (s : Device Sha) : Type 0 where
    pub sizes : HasSizes s
    pub address : HasText 124 text (memory s)
    pub offset : s.current_offset ≡ pos k
    pub direction : s.direction ≡ pos 1
    pub past : length text < k + 16

  -- The element 0x83 drawn again and again.
  unfoldable pub draw_lines : ℕ → Exec (Device Sha) (Unit {0})
  draw_lines zero = pure tt
  draw_lines (suc n) = do description_line 88; draw_lines n

  record Moved (text : List ℕ) (k : ℕ) (s : Device Sha) : Type 0 where
    pub after : Device Sha
    pub returns : description_line 88 s ≡ ok tt after
    pub further : Past text (suc k) after

  moves : (text : List ℕ) (k : ℕ) (s : Device Sha) → Past text k s → k ≤ 37 → Moved text k s
  unfolding description_line store memory
  moves text k s v inside = record {
    after = record (drawn (124 + k) s) { current_offset = pos (suc k); callback_interval = 300 };
    returns =
        rw (◌>>=◌, ◌>>◌, p.returns)
          (scroll_on-same (drawn (124 + k) s) text (pos k) (pos 1) (pos (suc k)) address v.offset
            v.direction (add_one k) (ne→== (suc k + 1) 0 (omega arith))
            (not_past (suc k) (length text) (omega (arith, v.past))));
    further = record {
      sizes = record {
        words = p.sizes.words;
        address = p.sizes.address;
        address_copy = p.sizes.address_copy;
        line_1 = p.sizes.line_1;
        line_2 = p.sizes.line_2;
        current_output = p.sizes.current_output;
        display = p.sizes.display;
        out_address = p.sizes.out_address;
        amount = p.sizes.amount;
      };
      address = address;
      offset = refl;
      direction = v.direction;
      past = omega (arith, v.past);
    };
  }
    where
      p : Drawn (124 + k) s
      p = draw_window-Drawn s (pos k) (124 + k) v.sizes v.offset (points k) (omega arith)

      size : length (window (124 + k) s) ≡ 15
      size = omega (
        arith,
        length-take 15 (drop (124 + k) (memory s)),
        length-drop (124 + k) (memory s),
        length-memory s v.sizes,
      )

      inside1 : 88 + length (window (124 + k) s) ≤ length (memory s)
      inside1 = omega (arith, size, length-memory s v.sizes)

      address : HasText 124 text (memory (drawn (124 + k) s))
      address =
          subst (λ m. HasText 124 text m) (sym p.bytes)
            (HasText-patch 104 (0 ∷ []) (patch 88 (window (124 + k) s) (memory s)) 124 text
              (omega (
                arith,
                length-patch (memory s) 88 (window (124 + k) s) inside1,
                length-memory s v.sizes,
              ))
              (omega arith)
              (HasText-patch 88 (window (124 + k) s) (memory s) 124 text inside1
                (omega (arith, size)) v.address))

  leaves :
      (text : List ℕ) (k : ℕ) (s : Device Sha)
      → Past text k s
      → 37 < k
      → description_line 88 s ≡ fault
  unfolding description_line draw_window read_memory
  leaves text k s v outside = rw (
    ◌>>=◌,
    ◌>>◌,
    ap (λ o. pointer 124 o) v.offset ∙ points k,
    read_bytes_out (memory s) (124 + k) 15 (omega (arith, length-memory s v.sizes)),
  )

  -- What `n` drawings leave: the text further to the right.
  pub record RunsOn (text : List ℕ) (k n : ℕ) (s : Device Sha) : Type 0 where
    pub after : Device Sha
    pub returns : draw_lines n s ≡ ok tt after
    pub further : Past text (k + n) after

  runs :
      (n : ℕ) (text : List ℕ) (k : ℕ) (s : Device Sha)
      → Past text k s
      → k + n ≤ 38
      → RunsOn text k n s
  unfolding draw_lines
  runs zero text k s v inside =
      let stays : k ≡ k + 0 = omega arith in
      record { after = s; returns = refl; further = subst (λ (j : ℕ). Past text j s) stays v }
  runs (suc n) text k s v inside =
      let m = moves text k s v (omega arith) in
      let r = runs n text (suc k) m.after m.further (omega arith) in
      let shifts : suc k + n ≡ k + suc n = omega arith in
      record {
        after = r.after;
        returns = rw (◌>>=◌, ◌>>◌, m.returns) r.returns;
        further = subst (λ (j : ℕ). Past text j r.after) shifts r.further;
      }

  overruns :
      (left : ℕ) (text : List ℕ) (k : ℕ) (s : Device Sha)
      → Past text k s
      → k + left ≡ 38
      → draw_lines (suc left) s ≡ fault
  unfolding draw_lines
  overruns zero text k s v all = rw (◌>>=◌, ◌>>◌, leaves text k s v (omega arith))
  overruns (suc left) text k s v all =
      let m = moves text k s v (omega arith) in
      rw (◌>>=◌, ◌>>◌, m.returns) (overruns left text (suc k) m.after m.further (omega arith))

  -- Where the offset of the approval's text is past the place where it turns (offset k on the way
  -- to the right, an address of fewer than k + 16 characters, the arrays of their sizes), any
  -- number n of drawings of the address up to 38 - k return, with the offset at k + n, still on
  -- the way to the right and past the turn, and the drawing behind 38 - k of them reads behind the
  -- arrays of transactionContext.
  pub draw_lines-overrun :
      (n left : ℕ) (text : List ℕ) (k : ℕ) (s : Device Sha)
      → Past text k s
      → k + (n + left) ≡ 38
      → RunsOn text k n s × (draw_lines (suc (n + left)) s ≡ fault)
  draw_lines-overrun n left text k s v all =
      (runs n text k s v (omega arith), overruns (n + left) text k s v all)
