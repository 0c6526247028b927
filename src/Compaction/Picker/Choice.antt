-- ===== src/Compaction/Picker/Choice.antt =====
-- The files that one segment offers: few, small, and within the memory limit.
use horaedb.Prelude.{
  ℕ, zero, suc, ◌+◌, ◌*◌, ◌%◌, ◌^◌, ◌≤◌, ◌<◌, ◌≡◌, refl, ap, subst, ◌∙◌, append_assoc,
  All-append_right, Bool-cases, inl, inr, List, [], ◌∷◌, ◌++◌, All, length, take, leb, arith,
}
use horaedb.Sst.{SstFile}
use horaedb.Compaction.{total_size}
use horaedb.Compaction.Picker.{Host, Strategy, take_while_fits, choose, IsSortedBySize}
use mathlib.Core.List.{Permᴰ}

-- What holds of all files of a list holds of all that `take` and `take_while` leave.
module _ (P : SstFile → Type 0) where
  All-take : (n : ℕ) (fs : List SstFile) → All P fs → All P (take n fs)
  All-take zero fs h = tt
  All-take (suc n) [] h = tt
  All-take (suc n) (f ∷ fs) (h, hs) = (h, All-take n fs hs)

  All-take_while_fits :
      (size limit : ℕ) (fs : List SstFile) → All P fs → All P (take_while_fits size limit fs)
  unfolding take_while_fits
  All-take_while_fits size limit [] h = tt
  All-take_while_fits size limit (f ∷ fs) (h, hs) =
      elim (Bool-cases (leb ((size + f.meta.size) % 2 ^ 64) limit)) [
        | inl e ↦ rw e (h, All-take_while_fits ((size + f.meta.size) % 2 ^ 64) limit fs hs)
        | inr e ↦ rw e tt
      ]

  pub All-Permᴰ : {fs gs : List SstFile} → Permᴰ fs gs → All P gs → All P fs
  All-Permᴰ Permᴰ.nil h = tt
  All-Permᴰ (Permᴰ.cons e d) (h, hs) = (rw e h, All-Permᴰ d hs)
  All-Permᴰ (Permᴰ.swap e g) (h, (k, hs)) = (rw e k, (rw g h, hs))
  All-Permᴰ (Permᴰ.trans d e) h = All-Permᴰ d (All-Permᴰ e h)

length-take_while_fits :
    (size limit : ℕ) (fs : List SstFile) → length (take_while_fits size limit fs) ≤ length fs
unfolding take_while_fits
length-take_while_fits size limit [] = omega arith
length-take_while_fits size limit (f ∷ fs) =
    ground (arith, length-take_while_fits ((size + f.meta.size) % 2 ^ 64) limit fs)

length-take-le : (n : ℕ) (fs : List SstFile) → length (take n fs) ≤ n
length-take-le zero fs = omega arith
length-take-le (suc n) [] = omega arith
length-take-le (suc n) (f ∷ fs) = omega (arith, length-take-le n fs)

-- The running size does not wrap while the sizes are those of `u32` and the files are few.
total_size-take_while_fits :
    (size limit : ℕ) (fs : List SstFile)
    → All (λ f. f.meta.size < 2 ^ 32) fs
    → size + length fs * 2 ^ 32 < 2 ^ 64
    → size ≤ limit
    → size + total_size (take_while_fits size limit fs) ≤ limit
unfolding take_while_fits total_size
total_size-take_while_fits size limit [] h few le = omega arith
total_size-take_while_fits size limit (f ∷ fs) (h, hs) few le =
    ground (arith, total_size-take_while_fits ((size + f.meta.size) % 2 ^ 64) limit fs)

-- What `take` and `take_while` keep is the front of the list.
take_while_fits-IsFront :
    (size limit : ℕ) (fs : List SstFile)
    → (rest : List SstFile) × (fs ≡ take_while_fits size limit fs ++ rest)
unfolding take_while_fits
take_while_fits-IsFront size limit [] = ([], refl)
take_while_fits-IsFront size limit (f ∷ fs) =
    elim (Bool-cases (leb ((size + f.meta.size) % 2 ^ 64) limit)) [
      | inl e ↦
          let (rest, front) = take_while_fits-IsFront ((size + f.meta.size) % 2 ^ 64) limit fs in
          (rest, rw e (ap (λ l. f ∷ l) front))
      | inr e ↦ (f ∷ fs, rw e)
    ]

take-IsFront : (n : ℕ) (fs : List SstFile) → (rest : List SstFile) × (fs ≡ take n fs ++ rest)
take-IsFront zero fs = (fs, refl)
take-IsFront (suc n) [] = ([], refl)
take-IsFront (suc n) (f ∷ fs) =
    let (rest, front) = take-IsFront n fs in (rest, ap (λ l. f ∷ l) front)

front-le-rest :
    (front rest : List SstFile)
    → IsSortedBySize (front ++ rest)
    → All (λ f. All (λ g. f.meta.size ≤ g.meta.size) rest) front
front-le-rest [] rest h = tt
front-le-rest (f ∷ front) rest (h, hs) =
    (All-append_right (λ g. f.meta.size ≤ g.meta.size) front rest h, front-le-rest front rest hs)

module _ (host : Host) (self : Strategy) where
  pub All-choose :
      (P : SstFile → Type 0) (fs : List SstFile) → All P fs → All P (choose host self fs)
  unfolding choose
  All-choose P fs h =
      All-take_while_fits P 0 _ _ (All-take P _ _ (All-Permᴰ P (host.sort-perm fs) h))

  pub length-choose : (fs : List SstFile) → length (choose host self fs) ≤ self.input_sst_max_num
  unfolding choose
  length-choose fs = omega (
    arith,
    length-take_while_fits 0 (host.plus_tenth self.new_sst_max_size)
        (take self.input_sst_max_num (host.sort fs)),
    length-take-le self.input_sst_max_num (host.sort fs),
  )

  pub total_size-choose :
      (fs : List SstFile)
      → All (λ f. f.meta.size < 2 ^ 32) fs
      → self.input_sst_max_num < 2 ^ 31
      → total_size (choose host self fs) ≤ host.plus_tenth self.new_sst_max_size
  unfolding choose
  total_size-choose fs h few = omega (
    arith,
    total_size-take_while_fits 0 (host.plus_tenth self.new_sst_max_size)
        (take self.input_sst_max_num (host.sort fs))
        (All-take (λ f. f.meta.size < 2 ^ 32) _ _
          (All-Permᴰ (λ f. f.meta.size < 2 ^ 32) (host.sort-perm fs) h))
        (omega (arith, length-take-le self.input_sst_max_num (host.sort fs))),
  )

  -- The files of the segment that are left are each at least as large as all that are chosen.
  pub choose_smallest :
      (fs : List SstFile)
      → (rest : List SstFile) × Permᴰ (choose host self fs ++ rest) fs
        × All (λ f. All (λ g. f.meta.size ≤ g.meta.size) rest) (choose host self fs)
  unfolding choose
  choose_smallest fs =
      let taken = take self.input_sst_max_num (host.sort fs) in
      let limit = host.plus_tenth self.new_sst_max_size in
      let (more, e) = take-IsFront self.input_sst_max_num (host.sort fs) in
      let (fewer, e') = take_while_fits-IsFront 0 limit taken in
      let front : host.sort fs ≡ take_while_fits 0 limit taken ++ (fewer ++ more) =
        e ∙ ap (λ l. l ++ more) e' ∙ append_assoc _ fewer more in
      (
        fewer ++ more,
        subst (λ l. Permᴰ l fs) front (host.sort-perm fs),
        front-le-rest _ (fewer ++ more) (subst IsSortedBySize front (host.sort-IsSortedBySize fs)),
      )
