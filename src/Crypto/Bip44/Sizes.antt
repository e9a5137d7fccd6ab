-- ===== src/Crypto/Bip44/Sizes.antt =====
-- `get_bip44_path` stores words in the path and changes no length.
use ledger_nano.Base.{
  ℕ, zero, suc, ◌+◌, ◌-◌, ◌%◌, ◌≡◌, ◌∙◌, List, [], ◌∷◌, Bool, length, set, get_elem?, u4be,
  length-set, ltb, ◌==◌,
}
use mathlib.Core.Bool.{not}
use ledger_nano.Base.Post.{Post, bind-Post, any-Post, if-Post}
use ledger_nano.Crypto.Bip44.{
  path_loop, check_path, get_bip44_path, reject_if, wants_hardened, unhardened, bip44_path_len,
}

module _ (n : ℕ) where
  abbrev L : List ℕ → Type 0
  L path = length path ≡ n

  path_loop-Post :
      (left i : ℕ) (bytes path : List ℕ) → L path → Post L L (path_loop left i bytes path)
  unfolding path_loop
  path_loop-Post zero i bytes path h = h
  path_loop-Post (suc left) i (a ∷ b ∷ c ∷ d ∷ rest) path h =
      if-Post L L (wants_hardened i a) _ _ path (λ _. h)
        (λ _.
          path_loop-Post left (i + 1) rest (set path i (u4be a b c d))
            (length-set path i (u4be a b c d) ∙ h))
  path_loop-Post (suc left) i [] path h = tt
  path_loop-Post (suc left) i (a ∷ []) path h = tt
  path_loop-Post (suc left) i (a ∷ b ∷ []) path h = tt
  path_loop-Post (suc left) i (a ∷ b ∷ c ∷ []) path h = tt

  reject_if-Post :
      (i : ℕ) (test : ℕ → Bool) (path : List ℕ) → L path → Post L L (reject_if i test path)
  reject_if-Post i test path h =
      any-Post L L (get_elem? path i) _ path
        (λ word. if-Post L L (test word) _ _ path (λ _. h) (λ _. h))

  check_path-Post : (path : List ℕ) → L path → Post L L (check_path path)
  unfolding check_path
  check_path-Post path h =
      bind-Post L L L (reject_if 0 (λ w. not (unhardened w == 44)) path) _
        (reject_if-Post 0 _ path h)
        (λ _ p1 h1.
          bind-Post L L L (reject_if 2 (λ w. ltb 9 (unhardened w)) p1) _ (reject_if-Post 2 _ p1 h1)
            (λ _ p2 h2.
              bind-Post L L L (reject_if 3 (λ w. ltb 0 (w - w % 2)) p2) _ (reject_if-Post 3 _ p2 h2)
                (λ _ p3 h3. reject_if-Post 4 (λ w. ltb 999 w) p3 h3)))

  pub get_bip44_path-Post : (bytes path : List ℕ) → L path → Post L L (get_bip44_path bytes path)
  unfolding get_bip44_path
  get_bip44_path-Post bytes path h =
      bind-Post L L L (path_loop bip44_path_len 0 bytes path) _
        (path_loop-Post bip44_path_len 0 bytes path h) (λ _. check_path-Post)
