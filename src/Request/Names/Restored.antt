-- ===== src/Request/Names/Restored.antt =====
-- Every name that is sent has 64 bytes at most, and is restored.
use kiro_trust.Prelude.{
  ◌≡◌, refl, sym, ap, subst, ◌∙◌, Bool, Bool-cases, Option-cases, ◌⊎◌, inl, inr, true, false,
  Option, none, some, List, [], ◌∷◌, map, leb, if◌then◌else◌, if_both, if_true, if_false, arith,
}
use kiro_trust.Text.{Text, Bytes, text_eq, text_eq_iff, text_eq_refl}
use kiro_trust.Text.Utf8.{len}
use kiro_trust.Request.Names.{
  ToolNameMap, no_names, get, or_else, short_name, remember, shorten, restore,
}

get_here : (k v : Text) (es : List (Text × Text)) → get ((k, v) ∷ es) k ≡ some v
unfolding get
get_here k v es = if_true (text_eq k k) (some v) (get es k) (text_eq_refl k)

get_there :
    (k v : Text) (es : List (Text × Text)) (key : Text)
    → text_eq k key ≡ false
    → get ((k, v) ∷ es) key ≡ get es key
unfolding get
get_there k v es key h = if_false (text_eq k key) (some v) (get es key) h

get-cases :
    (k v : Text) (es : List (Text × Text)) (key r : Text)
    → get ((k, v) ∷ es) key ≡ some r
    → ((key ≡ k) × (r ≡ v)) ⊎ (get es key ≡ some r)
get-cases k v es key r h = elim (Bool-cases (text_eq k key)) [
  | inl e ↦
      let q = (text_eq_iff k key).0 e in
      let w : some v ≡ some r =
        sym (get_here k v es) ∙ subst (λ x. get ((k, v) ∷ es) x ≡ some r) (sym q) h in
      inl (sym q, ground arith)
  | inr e ↦ inr (sym (get_there k v es key e) ∙ h)
]

absent : {s : Text} → none ≡ some s → ⊥
absent e = cc

ap_cons : {x y : Text} {xs ys : List Text} → x ≡ y → xs ≡ ys → x ∷ xs ≡ y ∷ ys
ap_cons e f = cc

module _ (sha256 : Bytes → Bytes) where
  abbrev is_short : Text → Bool
  is_short name = leb (len name) 64

  -- What a tool of this name is sent under.
  unfoldable pub sent : Text → Text
  sent name = if leb (len name) 64 then name else short_name sha256 name

  -- Every name of a list is shortened, in order, as for the tools of a request.
  unfoldable pub shorten_all : List Text → ToolNameMap → List Text × ToolNameMap
  shorten_all [] m = ([], m)
  shorten_all (name ∷ names) m =
      let (s, m') = shorten sha256 name m in let (ss, m'') = shorten_all names m' in (s ∷ ss, m'')

  sent_short : (name : Text) → is_short name ≡ true → sent name ≡ name
  unfolding sent
  sent_short name h = if_true (is_short name) name (short_name sha256 name) h

  sent_long : (name : Text) → is_short name ≡ false → sent name ≡ short_name sha256 name
  unfolding sent
  sent_long name h = if_false (is_short name) name (short_name sha256 name) h

  -- No two of the names in use are sent under the same name.
  module _ (Used : Text → Type 0)
      (distinct : (a b : Text) → Used a → Used b → sent a ≡ sent b → a ≡ b) where
    record Faithful (m : ToolNameMap) : Type 0 where
      pub shorts : (n s : Text) → get m.to_short n ≡ some s → s ≡ short_name sha256 n
      pub stored : (n s : Text) → get m.to_short n ≡ some s → get m.to_original s ≡ some n
      pub used : (s n : Text) → get m.to_original s ≡ some n → Used n
      pub long : (s n : Text) → get m.to_original s ≡ some n → is_short n ≡ false
      pub origin : (s n : Text) → get m.to_original s ≡ some n → s ≡ short_name sha256 n

    -- The name is stored, if it is a long one.
    abbrev Holds : ToolNameMap → Text → Type 0
    Holds m n = is_short n ≡ false → get m.to_original (short_name sha256 n) ≡ some n

    same_long :
        (a b : Text)
        → Used a
        → Used b
        → is_short a ≡ false
        → is_short b ≡ false
        → short_name sha256 a ≡ short_name sha256 b
        → a ≡ b
    same_long a b ua ub la lb e = distinct a b ua ub (sent_long a la ∙ e ∙ sym (sent_long b lb))

    abbrev added : Text → ToolNameMap → ToolNameMap
    added name m = (remember sha256 none name m).1

    -- What is stored stays so.
    added_keeps :
        (name : Text) (m : ToolNameMap) (s n : Text)
        → Faithful m
        → Used name
        → is_short name ≡ false
        → get m.to_original s ≡ some n
        → get (added name m).to_original s ≡ some n
    added_keeps name m s n f u l h = elim (Bool-cases (text_eq (short_name sha256 name) s)) [
      | inl e ↦
          let q = (text_eq_iff (short_name sha256 name) s).0 e in
          let same = same_long name n u (f.used s n h) l (f.long s n h) (q ∙ f.origin s n h) in
          subst (λ k. get (added name m).to_original k ≡ some n) q
            (get_here (short_name sha256 name) name m.to_original ∙ ap some same)
      | inr e ↦ get_there (short_name sha256 name) name m.to_original s e ∙ h
    ]

    added-Faithful :
        (name : Text) (m : ToolNameMap)
        → Faithful m
        → Used name
        → is_short name ≡ false
        → Faithful (added name m)
    added-Faithful name m f u l =
        let short = short_name sha256 name in
        let in_short = λ (n s : Text) (h : get (added name m).to_short n ≡ some s).
          get-cases name short m.to_short n s h in
        let in_original = λ (s n : Text) (h : get (added name m).to_original s ≡ some n).
          get-cases short name m.to_original s n h in
        record {
          shorts = λ n s h. elim (in_short n s h) [
            | inl (a, b) ↦ b ∙ ap (short_name sha256) (sym a)
            | inr k ↦ f.shorts n s k
          ];
          stored = λ n s h. elim (in_short n s h) [
            | inl (a, b) ↦
                subst (λ x. get (added name m).to_original x ≡ some n) (sym b)
                  (get_here short name m.to_original ∙ ap some (sym a))
            | inr k ↦ added_keeps name m s n f u l (f.stored n s k)
          ];
          used = λ s n h. elim (in_original s n h) [
            | inl (a, b) ↦ subst Used (sym b) u
            | inr k ↦ f.used s n k
          ];
          long = λ s n h. elim (in_original s n h) [
            | inl (a, b) ↦ subst (λ x. is_short x ≡ false) (sym b) l
            | inr k ↦ f.long s n k
          ];
          origin = λ s n h. elim (in_original s n h) [
            | inl (a, b) ↦ a ∙ ap (short_name sha256) (sym b)
            | inr k ↦ f.origin s n k
          ];
        }

    -- One call of `shorten`: what it sends, and what stays stored.
    record Step (name : Text) (m : ToolNameMap) (r : Text × ToolNameMap) : Type 0 where
      pub sends : r.0 ≡ sent name
      pub faithful : Faithful r.1
      pub here : Holds r.1 name
      pub keeps : (n : Text) → Used n → Holds m n → Holds r.1 n

    Step-remember :
        (o : Option Text) (name : Text) (m : ToolNameMap)
        → get m.to_short name ≡ o
        → Faithful m
        → Used name
        → is_short name ≡ false
        → Step name m (remember sha256 o name m)
    Step-remember (some s) name m e f u l = record {
      sends = f.shorts name s e ∙ sym (sent_long name l);
      faithful = f;
      here =
          λ _. subst (λ x. get m.to_original x ≡ some name) (f.shorts name s e) (f.stored name s e);
      keeps = λ n v h. h;
    }
    Step-remember none name m e f u l = record {
      sends = sym (sent_long name l);
      faithful = added-Faithful name m f u l;
      here = λ _. get_here (short_name sha256 name) name m.to_original;
      keeps = λ n v h k. added_keeps name m (short_name sha256 n) n f u l (h k);
    }

    true_not_false : {b : Bool} → b ≡ true → b ≡ false → ⊥
    true_not_false e f = cc

    Step-shorten :
        (name : Text) (m : ToolNameMap)
        → Faithful m
        → Used name
        → Step name m (shorten sha256 name m)
    unfolding shorten
    Step-shorten name m f u =
        if_both (Step name m) (is_short name) (name, m)
          (remember sha256 (get m.to_short name) name m)
          (λ s. record {
            sends = sym (sent_short name s);
            faithful = f;
            here = λ l. absurd (true_not_false s l);
            keeps = λ n v h. h;
          })
          (λ l. Step-remember (get m.to_short name) name m refl f u l)

    abbrev AllUsed : List Text → Type 0
    AllUsed [] = Unit
    AllUsed (n ∷ ns) = Used n × AllUsed ns

    no_names-Faithful : Faithful no_names
    unfolding get
    no_names-Faithful = record {
      shorts = λ n s h. absurd (absent h);
      stored = λ n s h. absurd (absent h);
      used = λ s n h. absurd (absent h);
      long = λ s n h. absurd (absent h);
      origin = λ s n h. absurd (absent h);
    }

    or_else-some : (o : Option Text) (d s : Text) → o ≡ some s → or_else o d ≡ s
    or_else-some o d s e = rw e refl

    restore-long :
        (m : ToolNameMap) (n : Text) → Holds m n → is_short n ≡ false → restore m (sent n) ≡ n
    unfolding restore
    restore-long m n h l =
        rw (sent_long n l)
          (or_else-some (get m.to_original (short_name sha256 n)) (short_name sha256 n) n (h l))

    restore-short :
        (m : ToolNameMap) (n : Text) → Faithful m → Used n → is_short n ≡ true → restore m n ≡ n
    unfolding restore
    restore-short m n f u s = elim (Option-cases (get m.to_original n)) [
      | inl e ↦ rw e refl
      | inr (k, e) ↦
          let l = f.long n k e in
          let q =
            distinct n k u (f.used n k e) (sent_short n s ∙ f.origin n k e ∙ sym (sent_long k l)) in
          absurd (true_not_false s (subst (λ x. is_short x ≡ false) (sym q) l))
    ]

    restore-sent :
        (m : ToolNameMap) (n : Text) → Faithful m → Used n → Holds m n → restore m (sent n) ≡ n
    restore-sent m n f u h = elim (Bool-cases (is_short n)) [
      | inl s ↦ rw (sent_short n s) (restore-short m n f u s)
      | inr l ↦ restore-long m n h l
    ]

    -- All the calls: each name is restored at their end.
    record Steps (names : List Text) (m : ToolNameMap) (r : List Text × ToolNameMap) : Type 0 where
      pub faithful : Faithful r.1
      pub restored : map (restore r.1) r.0 ≡ names
      pub keeps : (n : Text) → Used n → Holds m n → Holds r.1 n

    Steps-shorten_all :
        (names : List Text) (m : ToolNameMap)
        → Faithful m
        → AllUsed names
        → Steps names m (shorten_all names m)
    unfolding shorten_all
    Steps-shorten_all [] m f u = record { faithful = f; restored = refl; keeps = λ n v h. h }
    Steps-shorten_all (n ∷ ns) m f (u, us) =
        let a = Step-shorten n m f u in
        let r = shorten sha256 n m in
        let b = Steps-shorten_all ns r.1 a.faithful us in
        let last = (shorten_all ns r.1).1 in
        record {
          faithful = b.faithful;
          restored =
              ap_cons
                (ap (restore last) a.sends ∙ restore-sent last n b.faithful u (b.keeps n u a.here))
                b.restored;
          keeps = λ k v h. b.keeps k v (a.keeps k v h);
        }

    -- If no two of the names in use are sent under the same name, then `restore` gives back every
    -- name of any list of them, from what `shorten` has made of it, after all of them have been
    -- shortened.
    pub restore-shorten :
        (names : List Text)
        → AllUsed names
        → let (sent_names, m) = shorten_all names no_names in map (restore m) sent_names ≡ names
    restore-shorten names u = (Steps-shorten_all names no_names no_names-Faithful u).restored
