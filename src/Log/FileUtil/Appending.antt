-- ===== src/Log/FileUtil/Appending.antt =====
-- What `AppendFile::Append` of windz/log/FileUtil.cpp gives the stream.
use windz.Prelude.{
  ℕ, zero, suc, ◌≤◌, ◌<◌, ◌≡◌, refl, sym, ◌∙◌, ap, List, [], ◌∷◌, ◌++◌, append-nil, append_assoc,
  length, length-drop, take, drop, take-append-drop, arith,
}
use windz.Log.FileUtil.{AppendFile, append, append_loop}

-- A stream without an error takes at least one byte of those that it is given.
abbrev pub Accepts : (List ℕ → List ℕ → ℕ) → Type 0
Accepts fwrite =
    (taken line : List ℕ)
    → 0 < length line
    → (0 < fwrite taken line) × (fwrite taken line ≤ length line)

module _ (fwrite : List ℕ → List ℕ → ℕ) (accepts : Accepts fwrite) where
  parted : (n : ℕ) (line taken : List ℕ) → (taken ++ take n line) ++ drop n line ≡ taken ++ line
  parted n line taken =
      append_assoc taken (take n line) (drop n line) ∙ ap (◌++◌ taken) (take-append-drop n line)

  -- As much fuel as there are bytes is enough for all of them.
  append_loop-all :
      (fuel : ℕ) (remain taken : List ℕ)
      → length remain ≤ fuel
      → append_loop fwrite fuel remain taken ≡ taken ++ remain
  unfolding append_loop
  append_loop-all zero [] taken h = sym (append-nil taken)
  append_loop-all zero (b ∷ bs) taken h = absurd (omega arith)
  append_loop-all (suc fuel) [] taken h = sym (append-nil taken)
  append_loop-all (suc fuel) (b ∷ bs) taken h =
      let n = fwrite taken (b ∷ bs) in
      let (some_taken, inside) = accepts taken (b ∷ bs) (omega arith) in
      let rest =
        append_loop-all fuel (drop n (b ∷ bs)) (taken ++ take n (b ∷ bs))
          (omega (arith, length-drop n (b ∷ bs))) in
      ground (arith, rest ∙ parted n (b ∷ bs) taken)

  -- All of the line is taken, however little the stream takes at a time, by the same file.
  pub append_lem :
      (f : AppendFile) (line : List ℕ)
      → ((append fwrite f line).taken ≡ f.taken ++ line)
        × ((append fwrite f line).filename ≡ f.filename)
  unfolding append
  append_lem f line =
      let n = fwrite f.taken line in
      (
        append_loop-all (length line) (drop n line) (f.taken ++ take n line)
              (omega (arith, length-drop n line))
            ∙ parted n line f.taken,
        refl,
      )
