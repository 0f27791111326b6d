-- ===== src/Log/LogFile/Rolls.antt =====
-- What windz/log/LogFile.cpp keeps of the lines, over all its files.
use windz.Prelude.{
  ℕ, ◌+◌, ◌≡◌, ◌<◌, refl, sym, ap, ap₂, not, ◌==◌, ltb→lt, lt→ltb, ◌∙◌, Bool-cases, inl, inr, List,
  [], ◌∷◌, ◌++◌, append-nil, append_assoc, map, some, Returns, returns, Returns-bind, ltb,
}
use mathlib.Core.List.{map-append, flatten}
use windz.Prelude.Int.{ℤ, pos, leb_ℤ, ltb_ℤ, sub_ℕ}
use windz.Log.FileUtil.{AppendFile, append, flush, new_append_file, off_t}
use windz.Log.FileUtil.Appending.{Accepts, append_lem}
use windz.Log.LogFile.{
  LogFile, Moment, make_log_file_name, roll_file, new_log_file, append_unlocked, append_all,
  check_time, day_of, left,
}

flatten_snoc {ℓ} :
    {A : Type ℓ} (xs : List (List A)) (y : List A) → flatten (xs ++ y ∷ []) ≡ flatten xs ++ y
unfolding flatten
flatten_snoc [] y = append-nil y
flatten_snoc (x ∷ xs) y = ap (◌++◌ x) (flatten_snoc xs y) ∙ sym (append_assoc x (flatten xs) y)

-- Times that grow, up to one that is later than all.
abbrev pub Rising : List ℕ → ℕ → Type 0
Rising [] last = Unit {0}
Rising (t ∷ []) last = t < last
Rising (t ∷ u ∷ ts) last = (t < u) × Rising (u ∷ ts) last

Rising-append :
    (ts : List ℕ) (last now : ℕ) → Rising ts last → last < now → Rising (ts ++ last ∷ []) now
Rising-append [] last now r h = h
Rising-append (t ∷ []) last now r h = (r, h)
Rising-append (t ∷ u ∷ ts) last now r h = (r.0, Rising-append (u ∷ ts) last now r.1 h)

module _ (timebuf : ℕ → List ℕ) (pidbuf : List ℕ) (fwrite : List ℕ → List ℕ → ℕ) where
  abbrev name_at : LogFile → ℕ → List ℕ
  name_at l time = make_log_file_name timebuf pidbuf fwrite l.basename time

  -- The files hold the lines, in order and each whole in one file; each file is named after the
  -- second in which it was begun, which is later than those of the files before.
  pub record IsLog (lines : List (List ℕ)) (l : LogFile) : Type 0 where
    pub current : AppendFile
    pub times : List ℕ
    pub before : List (List (List ℕ))
    pub last : List (List ℕ)
    pub whole : flatten before ++ last ≡ lines
    pub here : l.file ≡ some current
    pub texts : map (λ (f : AppendFile). f.taken) l.closed ≡ map flatten before
    pub text : current.taken ≡ flatten last
    pub names : map (λ (f : AppendFile). f.filename) l.closed ≡ map (name_at l) times
    pub name : current.filename ≡ name_at l l.last_roll
    pub rising : Rising times l.last_roll

  -- The current file, the count and the time of the last flush have changed.
  with_file :
      {lines lines' : List (List ℕ)} {l : LogFile} (v : IsLog lines l) (f : AppendFile)
      (last' : List (List ℕ)) (count last_flush : ℕ)
      → f.taken ≡ flatten last'
      → f.filename ≡ v.current.filename
      → flatten v.before ++ last' ≡ lines'
      → IsLog lines' (record l { file = some f; count = count; last_flush = last_flush })
  with_file v f last' count last_flush text name whole = record {
    current = f;
    times = v.times;
    before = v.before;
    last = last';
    whole = whole;
    here = refl;
    texts = v.texts;
    text = text;
    names = v.names;
    name = name ∙ v.name;
    rising = v.rising;
  }

  -- `RollFile` begins a new file, or leaves the log as it is within one second.
  roll_file-IsLog :
      {lines : List (List ℕ)} (m : Moment) (l : LogFile)
      → IsLog lines l
      → IsLog lines (roll_file timebuf pidbuf fwrite m l).1
  unfolding roll_file left flatten new_append_file
  roll_file-IsLog m l v = elim (Bool-cases (ltb l.last_roll m.roll_now)) [
    | inr e ↦ rw e v
    | inl e ↦
        rw (e, v.here)
          (record {
            current = new_append_file m.garbage (name_at l m.roll_now);
            times = v.times ++ l.last_roll ∷ [];
            before = v.before ++ v.last ∷ [];
            last = [];
            whole = append-nil _ ∙ flatten_snoc v.before v.last ∙ v.whole;
            here = refl;
            texts =
                map-append _ l.closed (v.current ∷ [])
                ∙ ap₂ (λ xs x. xs ++ x ∷ []) v.texts v.text
                ∙ sym (map-append flatten v.before (v.last ∷ []));
            text = refl;
            names =
                map-append _ l.closed (v.current ∷ [])
                ∙ ap₂ (λ xs x. xs ++ x ∷ []) v.names v.name
                ∙ sym (map-append (name_at l) v.times (l.last_roll ∷ []));
            name = refl;
            rising = Rising-append v.times l.last_roll m.roll_now v.rising (ltb→lt _ _ e);
          })
  ]

  check_time-IsLog :
      {lines : List (List ℕ)} (m : Moment) (l : LogFile) (v : IsLog lines l)
      → IsLog lines (check_time timebuf pidbuf fwrite m v.current l)
  unfolding check_time flush
  check_time-IsLog m l v = elim (Bool-cases (not (day_of m.now == l.start_of_day))) [
    | inl e ↦ rw e (roll_file-IsLog m l v)
    | inr e ↦ elim (Bool-cases (leb_ℤ l.flush_interval (sub_ℕ m.now l.last_flush))) [
      | inl h ↦ rw (e, h) (with_file v (flush v.current) v.last l.count m.now v.text refl v.whole)
      | inr h ↦ rw (e, h) v
    ]
  ]

  -- A log that is made at a time after the epoch.
  pub new_log_file-IsLog :
      (basename : List ℕ) (roll_size flush_interval check_every_n : ℤ) (m : Moment)
      → 0 < m.roll_now
      → IsLog []
          (new_log_file timebuf pidbuf fwrite basename roll_size flush_interval check_every_n m)
  unfolding new_log_file roll_file left new_append_file flatten
  new_log_file-IsLog basename roll_size flush_interval check_every_n m h =
      rw (lt→ltb 0 m.roll_now h, new_log_file, roll_file)
        (record {
          current = _;
          times = [];
          before = [];
          last = [];
          whole = refl;
          here = refl;
          texts = refl;
          text = refl;
          names = refl;
          name = refl;
          rising = tt;
        })

  module _ (accepts : Accepts fwrite) where
    append_unlocked-IsLog :
        {lines : List (List ℕ)} (m : Moment) (line : List ℕ) (l : LogFile)
        → IsLog lines l
        → Returns (IsLog (lines ++ line ∷ [])) (append_unlocked timebuf pidbuf fwrite m line l)
    unfolding append_unlocked with_file
    append_unlocked-IsLog {lines} m line l v =
        let f = append fwrite v.current line in
        let text : f.taken ≡ flatten (v.last ++ line ∷ []) =
          (append_lem fwrite accepts v.current line).0
          ∙ ap (λ xs. xs ++ line) v.text
          ∙ sym (flatten_snoc v.last line) in
        let whole =
          sym (append_assoc (flatten v.before) v.last (line ∷ []))
          ∙ ap (λ xs. xs ++ line ∷ []) v.whole in
        let added = λ (count : ℕ).
          with_file v f (v.last ++ line ∷ []) count l.last_flush text
            (append_lem fwrite accepts v.current line).1 whole in
        rw v.here (
          returns (elim (Bool-cases (ltb_ℤ l.roll_size (off_t f.written_bytes))) [
            | inl e ↦ rw e (roll_file-IsLog m _ (added l.count))
            | inr e ↦ elim (Bool-cases (leb_ℤ l.check_every_n (pos (l.count + 1)))) [
              | inl h ↦ rw (e, h) (check_time-IsLog m _ (added 0))
              | inr h ↦ rw (e, h) (added (l.count + 1))
            ]
          ]))

    -- Whatever lines are appended, at whatever times, every call returns; each line stands whole in
    -- one file, the files hold all lines in order, and each file is named after the second in which
    -- it was begun, later than those before, if the stream takes some of what it is given.
    pub append_all-IsLog :
        {lines : List (List ℕ)} (calls : List (Moment × List ℕ)) (l : LogFile)
        → IsLog lines l
        → Returns
            (IsLog (lines ++ map (λ (call : Moment × List ℕ). call.1) calls))
            (append_all timebuf pidbuf fwrite calls l)
    unfolding append_all
    append_all-IsLog {lines} [] l v = returns (rw (append-nil lines) v)
    append_all-IsLog {lines} ((m, line) ∷ calls) l v =
        Returns-bind (append_unlocked-IsLog m line l v) λ l' v'.
          rw (← append_assoc lines (line ∷ []) (map (λ (call : Moment × List ℕ). call.1) calls))
            (append_all-IsLog calls l' v')
