-- ===== src/Ui/Scroll/Opening.antt =====
-- `prepare_output_approval` opens the approval: the screen that it leaves shows the address and the
-- amount of the output.
use mathlib.Core.List.{append_assoc}
use ledger_nano.Base.{
  ℕ, zero, suc, ◌+◌, ◌-◌, ◌≤◌, ◌≡◌, refl, sym, ap, ◌∙◌, List, [], ◌∷◌, ◌++◌, some, arith, length,
  take, drop, replicate, All, IsByte, read_bytes, write_bytes, read_bytes_in, write_bytes_in,
  length-append, length-take, length-drop, drop-append, take-append, drop-drop, drop-append_more,
}
use ledger_nano.Base.Int.{ℤ, pos}
use ledger_nano.Base.Exec.{ok, ◌>>=◌}
use ledger_nano.Sdk.{Sdk, SdkLaws}
use ledger_nano.Device.{Device, txn_out}
use ledger_nano.Crypto.Base58.{encode_base_58}
use ledger_nano.Crypto.Address.{address_to_base58}
use ledger_nano.Crypto.Address.Text.{Shows, IsShown, address_bytes}
use ledger_nano.Crypto.Address.Laws.{address_to_base58-Shows}
use ledger_nano.Ui.Format.{output_display, amount_display}
use ledger_nano.Ui.Texts.{amount_display-IsShown, length-amount_display, length-output_display}
use ledger_nano.Ui.Approval.{prepare_output_approval}
use ledger_nano.Ui.Memory.{memory, word_bytes}
use ledger_nano.Ui.Memory.Laws.{HasSizes, length-word_bytes}
use ledger_nano.Ui.Scroll.Position.{Position}
use ledger_nano.Ui.Scroll.Approving.{Approving, drop_short, take_short}

-- A C string at the front of an array.
record Begins (text old : List ℕ) : Type 0 where
  pub rest : List ℕ
  pub written : write_bytes old 0 (text ++ 0 ∷ []) ≡ some (text ++ (0 ∷ rest))
  pub size : length (text ++ (0 ∷ rest)) ≡ length old
  pub behind : rest ≡ drop (length text + 1) old

write-Begins : (text old : List ℕ) → length text + 1 ≤ length old → Begins text old
write-Begins text old h = record {
  rest = drop (length text + 1) old;
  written =
      write_bytes_in old 0 (text ++ 0 ∷ []) (omega (arith, size))
      ∙ ap (λ x. some x) (append_assoc text (0 ∷ []) _ ∙ ap (λ n. text ++ (0 ∷ drop n old)) count);
  size = omega (
    arith,
    length-append text (0 ∷ drop (length text + 1) old),
    length-drop (length text + 1) old,
  );
  behind = refl;
}
  where
    size : length (text ++ 0 ∷ []) ≡ length text + 1
    size = length-append text (0 ∷ [])

    count : 0 + length (text ++ 0 ∷ []) ≡ length text + 1
    count = omega (arith, size)

drop-replicate : (m j n : ℕ) → n ≡ m + j → drop {A = ℕ} m (replicate n 0) ≡ replicate j 0
drop-replicate zero j n h = let e : n ≡ j = omega arith in ap (λ (k : ℕ). replicate {A = ℕ} k 0) e
drop-replicate (suc m) j zero h = absurd (omega arith)
drop-replicate (suc m) j (suc n) h = drop-replicate m j n (omega arith)

-- Behind a text in an array of sixteen NULs, the last byte is one.
last_zero :
    (text rest : List ℕ)
    → length text ≤ 15
    → rest ≡ drop (length text + 1) (replicate 16 0)
    → take 1 (drop 15 (text ++ (0 ∷ rest))) ≡ 0 ∷ []
last_zero text rest h e =
    ap (λ b. take 1 b)
      (drop-append_more 15 j text (0 ∷ rest) (omega arith)
        ∙ ap (λ b. drop j (0 ∷ b)) (e ∙ drop-replicate (length text + 1) j 16 (omega arith))
        ∙ drop-replicate j 1 (suc j) (omega arith))
  where
    j : ℕ
    j = 15 - length text

module _ {Sha : Type 0} where
  -- The memory from `custom_text_line_2` on, and from `current_output_display` on.
  line-memory :
      (s : Device Sha)
      → HasSizes s
      → drop 88 (memory s)
        ≡ s.custom_text_line_2
          ++ (s.current_output ++ (s.current_output_display ++ (s.out_address ++ s.amount)))
  unfolding memory
  line-memory s v =
      drop-append_more 88 68 (word_bytes s.bip44_path) _
        (omega (arith, length-word_bytes s.bip44_path, v.words))
      ∙ drop-append_more 68 32 s.address _ (omega (arith, v.address))
      ∙ drop-append_more 32 16 s.address_copy _ (omega (arith, v.address_copy))
      ∙ drop-append 16 s.custom_text_line_1 _ (sym v.line_1)

  drop-memory :
      (s : Device Sha)
      → HasSizes s
      → drop 108 (memory s) ≡ s.current_output_display ++ (s.out_address ++ s.amount)
  drop-memory s v =
      sym (drop-drop 20 88 (memory s))
      ∙ ap (λ m. drop 20 m) (line-memory s v)
      ∙ drop-append_more 20 4 s.custom_text_line_2 _ (omega (arith, v.line_2))
      ∙ drop-append 4 s.current_output _ (sym v.current_output)

  -- The texts in the arrays are those of an approval.
  in_place :
      (s : Device Sha) (text amount text_rest amount_rest : List ℕ)
      → HasSizes s
      → s.ctx.txn_state ≡ txn_out
      → take 1 (drop 15 s.custom_text_line_2) ≡ 0 ∷ []
      → take 1 (drop 15 s.current_output_display) ≡ 0 ∷ []
      → s.out_address ≡ text ++ (0 ∷ text_rest)
      → s.amount ≡ amount ++ (0 ∷ amount_rest)
      → IsShown text
      → 25 ≤ length text
      → length text ≤ 35
      → IsShown amount
      → length amount ≤ 15
      → s.current_offset ≡ pos 0
      → s.direction ≡ pos 1
      → Approving text amount (pos 0) (pos 1) s
  in_place s text amount text_rest amount_rest v out line_end display_end here coins shown long fits
        amount_shown short at_start forward =
      record {
        sizes = v;
        approves = out;
        address = record {
          rest = text_rest ++ s.amount;
          holds =
              sym (drop-drop 16 108 (memory s))
              ∙ ap (λ m. drop 16 m) (drop-memory s v)
              ∙ drop-append 16 s.current_output_display _ (sym v.display)
              ∙ ap (λ b. b ++ s.amount) here
              ∙ append_assoc text (0 ∷ text_rest) s.amount;
          shown = shown;
        };
        long = omega arith;
        fits = fits;
        coins = record {
          rest = amount_rest;
          holds =
              sym (drop-drop 52 108 (memory s))
              ∙ ap (λ m. drop 52 m) (drop-memory s v)
              ∙ drop-append_more 52 36 s.current_output_display _ (omega (arith, v.display))
              ∙ drop-append 36 s.out_address s.amount (sym v.out_address)
              ∙ coins;
          shown = amount_shown;
        };
        coins_fit = short;
        line_end =
            ap (λ b. take 1 b)
              (sym (drop-drop 15 88 (memory s))
                ∙ ap (λ m. drop 15 m) (line-memory s v)
                ∙ drop_short 15 s.custom_text_line_2 _ (omega (arith, v.line_2)))
            ∙ take_short 1 (drop 15 s.custom_text_line_2) _
                (omega (arith, length-drop 15 s.custom_text_line_2, v.line_2))
            ∙ line_end;
        display_end =
            ap (λ b. take 1 b)
              (sym (drop-drop 15 108 (memory s))
                ∙ ap (λ m. drop 15 m) (drop-memory s v)
                ∙ drop_short 15 s.current_output_display _ (omega (arith, v.display)))
            ∙ take_short 1 (drop 15 s.current_output_display) _
                (omega (arith, length-drop 15 s.current_output_display, v.display))
            ∙ display_end;
        offset = at_start;
        direction = forward;
        position = Position.forth 0 (omega arith);
      }

module _ (sdk : Sdk) (laws : SdkLaws sdk) where
  -- An approval that was opened.
  pub record Opened (bytes : List ℕ) (coins : ℕ) (o d : ℤ) (s : Device sdk.Sha256) : Type 0 where
    pub text : List ℕ
    pub encoded : encode_base_58 bytes ≡ some text
    pub after : Device sdk.Sha256
    pub returns : prepare_output_approval sdk s ≡ ok tt after
    pub approving : Approving text (amount_display coins) o d after

  -- Where the arrays of global have their sizes, the state is TXN_OUT, the second line ends in
  -- NUL, the scrolling is at its start, and the output's address is a version byte and a hash of
  -- 20 bytes, prepare_output_approval returns and leaves an approval whose address is the base-58
  -- text of hash, version and the first four bytes of their SHA-256, and whose amount is the text
  -- of the output's coins: the state from which the screen is redrawn.
  pub prepare_output_approval-Opened :
      (s : Device sdk.Sha256) (hash : List ℕ) (version : ℕ)
      → HasSizes s
      → s.ctx.txn_state ≡ txn_out
      → take 1 (drop 15 s.custom_text_line_2) ≡ 0 ∷ []
      → s.current_offset ≡ pos 0
      → s.direction ≡ pos 1
      → s.ctx.txn.cur_output.address ≡ version ∷ hash
      → length hash ≡ 20
      → All IsByte hash
      → IsByte version
      → Opened (address_bytes laws hash version) s.ctx.txn.cur_output.coin_num (pos 0) (pos 1) s
  unfolding prepare_output_approval
  prepare_output_approval-Opened s hash version v out line_end at_start forward output h_20 h_bytes
        v_byte =
      record {
        text = a.text;
        encoded = a.encoded;
        after = after;
        returns = rw (
          ◌>>=◌,
          display.written,
          ap (λ b. address_to_base58 sdk b (replicate 36 0)) output ∙ a.returns,
          a.ends,
          read,
          address.written,
          amount.written,
        );
        approving =
            in_place after a.text amt address.rest amount.rest sizes out line_end
              (last_zero od display.rest (length-output_display s.ctx.curr_obj s.ctx.txn.out_num)
                display.behind)
              refl refl a.shown (omega (arith, a.long, length-address_bytes))
              (omega (arith, a.size)) (amount_display-IsShown s.ctx.txn.cur_output.coin_num)
              (length-amount_display s.ctx.txn.cur_output.coin_num) at_start forward;
      }
    where
      a :
          Shows
            (address_bytes laws hash version)
            (address_to_base58 sdk (version ∷ hash) (replicate 36 0))
      a = address_to_base58-Shows sdk laws hash version (replicate 36 0) h_20 h_bytes v_byte refl

      od : List ℕ
      od = output_display s.ctx.curr_obj s.ctx.txn.out_num

      amt : List ℕ
      amt = amount_display s.ctx.txn.cur_output.coin_num

      display : Begins od (replicate 16 0)
      display =
          write-Begins od (replicate 16 0)
            (omega (arith, length-output_display s.ctx.curr_obj s.ctx.txn.out_num))

      address : Begins a.text s.out_address
      address = write-Begins a.text s.out_address (omega (arith, a.size, v.out_address))

      amount : Begins amt s.amount
      amount =
          write-Begins amt s.amount
            (omega (arith, length-amount_display s.ctx.txn.cur_output.coin_num, v.amount))

      read : read_bytes (a.text ++ (0 ∷ a.rest)) 0 (length a.text + 1) ≡ some (a.text ++ 0 ∷ [])
      read =
          read_bytes_in (a.text ++ (0 ∷ a.rest)) 0 (length a.text + 1)
            (omega (arith, length-append a.text (0 ∷ a.rest)))
          ∙ ap (λ b. some (take (length a.text + 1) b)) (sym (append_assoc a.text (0 ∷ []) a.rest))
          ∙ ap (λ b. some b)
              (take-append (length a.text + 1) (a.text ++ 0 ∷ []) a.rest
                (omega (arith, length-append a.text (0 ∷ []))))

      after : Device sdk.Sha256
      after = record s {
        current_output_display = od ++ (0 ∷ display.rest);
        out_address = a.text ++ (0 ∷ address.rest);
        amount = amt ++ (0 ∷ amount.rest);
      }

      sizes : HasSizes after
      sizes = record {
        words = v.words;
        address = v.address;
        address_copy = v.address_copy;
        line_1 = v.line_1;
        line_2 = v.line_2;
        current_output = v.current_output;
        display = display.size;
        out_address = address.size ∙ v.out_address;
        amount = amount.size ∙ v.amount;
      }

      length-address_bytes : length (address_bytes laws hash version) ≡ 25
      length-address_bytes = omega (
        arith,
        length-append (hash ++ version ∷ []) (take 4 (laws.sha256 (hash ++ version ∷ []))),
        length-append hash (version ∷ []),
        length-take 4 (laws.sha256 (hash ++ version ∷ [])),
        laws.sha256_size (hash ++ version ∷ []),
      )
