-- ===== src/Compaction/Picker/Latest.antt =====
-- Which segment the picker takes its files from: the latest one that offers enough of them.
use horaedb.Prelude.{
  ◌≡◌, refl, sym, ap, subst, ◌∙◌, Bool, true, false, not, ◌&&◌, Bool-cases, inl, inr, some, List,
  [], ◌∷◌, ◌++◌, append_assoc, All, All-append, All-append_right, length, ltb, leb, if◌then◌else◌,
  arith,
}
use horaedb.Prelude.Int.{◌<ℤ◌}
use horaedb.Types.{Timestamp}
use horaedb.Sst.{SstFile}
use horaedb.Compaction.Picker.{Host, Strategy, SegmentMap, choose, pick_from, pick_compaction_files}
use horaedb.Compaction.Picker.Segments.{AllUnder, Ascending}
use mathlib.Core.List.{reverse, reverse-append, reverse-cons, reverse-reverse}

-- The loop's two tests, which a segment's files pass or fail.
abbrev pub qualifies : Host → Strategy → List SstFile → Bool
qualifies host self files =
    not (ltb (length files) self.input_sst_min_num)
    && leb self.input_sst_min_num (length (choose host self files))

-- The first entry that qualifies, with the entries before and behind it.
record IsFirst (host : Host) (self : Strategy) (ms : SegmentMap) (files : List SstFile)
    : Type 0 where
  before : SegmentMap
  entry : Timestamp × List SstFile
  behind : SegmentMap
  split : ms ≡ before ++ entry ∷ behind
  passed : All (λ e. qualifies host self e.1 ≡ false) before
  chosen : choose host self entry.1 ≡ files
  enough : qualifies host self entry.1 ≡ true

pub pick_from-cases :
    (host : Host) (self : Strategy) (k : Timestamp) (fs : List SstFile) (ms : SegmentMap)
    → pick_from host self ((k, fs) ∷ ms)
      ≡ (if qualifies host self fs then some (choose host self fs) else pick_from host self ms)
unfolding pick_from
pick_from-cases host self k fs ms = ground arith

pick_from-IsFirst :
    (host : Host) (self : Strategy) (ms : SegmentMap) (files : List SstFile)
    → pick_from host self ms ≡ some files
    → IsFirst host self ms files
pick_from-IsFirst host self [] files e = unfold pick_from in cc
pick_from-IsFirst host self ((k, fs) ∷ ms) files e = elim (Bool-cases (qualifies host self fs)) [
  | inl yes_fs ↦ record {
    before = [];
    entry = (k, fs);
    behind = ms;
    split = refl;
    passed = tt;
    chosen = cc (pick_from-cases host self k fs ms, yes_fs);
    enough = yes_fs;
  }
  | inr no_fs ↦
      let later =
        pick_from-IsFirst host self ms files
          (rw no_fs at (sym (pick_from-cases host self k fs ms) ∙ e)) in
      record {
        before = (k, fs) ∷ later.before;
        entry = later.entry;
        behind = later.behind;
        split = ap (λ l. (k, fs) ∷ l) later.split;
        passed = (no_fs, later.passed);
        chosen = later.chosen;
        enough = later.enough;
      }
]

pub All-reverse :
    (P : Timestamp × List SstFile → Type 0) (m : SegmentMap) → All P m → All P (reverse m)
All-reverse P [] h = tt
All-reverse P (e ∷ m) (h, hs) =
    rw (reverse-cons e m) (All-append P (reverse m) (e ∷ []) (All-reverse P m hs) (h, tt))

abbrev Below : Timestamp → SegmentMap → Type 0
Below k = All (λ e. e.0 <ℤ k)

-- From the latest segment down.
abbrev Descending : SegmentMap → Type 0
Descending [] = Unit
Descending (e ∷ m) = Below e.0 m × Descending m

Descending-append :
    (m : SegmentMap) (e : Timestamp × List SstFile)
    → Descending m
    → All (λ d. e.0 <ℤ d.0) m
    → Descending (m ++ e ∷ [])
Descending-append [] e h k = (tt, tt)
Descending-append (d ∷ m) e (h, hs) (k, ks) =
    (All-append (λ c. c.0 <ℤ d.0) m (e ∷ []) h (k, tt), Descending-append m e hs ks)

Descending-reverse : (m : SegmentMap) → Ascending m → Descending (reverse m)
Descending-reverse [] h = tt
Descending-reverse (e ∷ m) (h, hs) =
    rw (reverse-cons e m) (
      Descending-append (reverse m) e (Descending-reverse m hs) (All-reverse (λ d. e.0 <ℤ d.0) m h))

-- No later segment qualifies.
abbrev pub Latest : Host → Strategy → Timestamp → SegmentMap → Type 0
Latest host self k = All (λ e. k <ℤ e.0 → qualifies host self e.1 ≡ false)

passed_over :
    (host : Host) (self : Strategy) (k : Timestamp) (m : SegmentMap)
    → Below k m
    → Latest host self k m
passed_over host self k [] h = tt
passed_over host self k (e ∷ m) (h, hs) = (λ lt. absurd (omega arith), passed_over host self k m hs)

Latest-split :
    (host : Host) (self : Strategy) (before : SegmentMap) (e : Timestamp × List SstFile)
    (behind : SegmentMap)
    → Descending (before ++ e ∷ behind)
    → All (λ d. qualifies host self d.1 ≡ false) before
    → Latest host self e.0 (before ++ e ∷ behind)
Latest-split host self [] e behind (h, hs) p =
    (λ lt. absurd (omega arith), passed_over host self e.0 behind h)
Latest-split host self (d ∷ before) e behind (h, hs) (p, ps) =
    (λ lt. p, Latest-split host self before e behind hs ps)

-- The files come from one entry of the map, which offers enough; no later entry does.
pub record IsLatest (host : Host) (self : Strategy) (m : SegmentMap) (files : List SstFile)
    : Type 0 where
  pub before : SegmentMap
  pub segment : Timestamp
  pub members : List SstFile
  pub behind : SegmentMap
  pub split : m ≡ before ++ (segment, members) ∷ behind
  pub chosen : choose host self members ≡ files
  pub enough : qualifies host self members ≡ true
  pub latest : Latest host self segment m

-- What holds of all files with their segments holds of the entry's.
pub entry_All :
    {host : Host} {self : Strategy} {m : SegmentMap} {files : List SstFile}
    (latest : IsLatest host self m files) (R : Timestamp → SstFile → Type 0)
    → AllUnder R m
    → All (R latest.segment) latest.members
entry_All latest R under =
    (All-append_right (λ (d : Timestamp × List SstFile). All (R d.0) d.1) latest.before _
      (subst (AllUnder R) latest.split under)).0

reverse-split :
    (before behind m : SegmentMap) (e : Timestamp × List SstFile)
    → reverse m ≡ before ++ e ∷ behind
    → m ≡ reverse behind ++ e ∷ reverse before
reverse-split before behind m e split =
    sym (reverse-reverse m)
    ∙ ap reverse split
    ∙ reverse-append before (e ∷ behind)
    ∙ ap (λ l. l ++ reverse before) (reverse-cons e behind)
    ∙ append_assoc (reverse behind) (e ∷ []) (reverse before)

-- From a map in the order of its keys, the files that are picked are those that the loop chooses from one
-- entry of the map, which has and offers at least `input_sst_min_num` files; no entry of a later segment
-- does.
pub pick_compaction_files-IsLatest :
    (host : Host) (self : Strategy) (m : SegmentMap) (files : List SstFile)
    → Ascending m
    → pick_compaction_files host self m ≡ some files
    → IsLatest host self m files
unfolding pick_compaction_files
pick_compaction_files-IsLatest host self m files h e =
    let f = pick_from-IsFirst host self (reverse m) files e in
    let down = subst Descending f.split (Descending-reverse m h) in
    let latest = Latest-split host self f.before f.entry f.behind down f.passed in
    record {
      before = reverse f.behind;
      segment = f.entry.0;
      members = f.entry.1;
      behind = reverse f.before;
      split = reverse-split f.before f.behind m f.entry f.split;
      chosen = f.chosen;
      enough = f.enough;
      latest =
          subst (Latest host self f.entry.0) (ap reverse (sym f.split) ∙ reverse-reverse m)
            (All-reverse _ _ latest);
    }
