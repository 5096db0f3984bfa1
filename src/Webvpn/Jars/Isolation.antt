-- ===== src/Webvpn/Jars/Isolation.antt =====
-- No two browsers share a jar, over every sequence of uses of the table.
use wvpn.Base.{
  ℕ, suc, ◌≤◌, ◌<◌, ◌≡◌, Bool, not, ◌||◌, List, [], ◌∷◌, Option, none, some, arith, if◌then◌else◌,
  Bool-cases, Option-cases, inl, inr, ◌⊎◌, leb, length,
}
use wvpn.Text.{Bytes, same}
use wvpn.Text.Laws.{same_refl, same_iff}
use wvpn.Dict.{Dict, lookup, insert, sweep}
use wvpn.Dict.Laws.{
  Distinct, lookup-insert, lookup-sweep, insert-Distinct, sweep-Distinct, length-insert,
  length-insert_known, length-sweep,
}
use wvpn.Webvpn.Jars.{JarEntry, SessionJars, max_jars, fresh, create, get, lookup_jar}

-- The jar that the table holds for a key.
abbrev pub jar_of : Bytes → Dict JarEntry → Option ℕ
jar_of key m = elim (lookup key m) [ none ↦ none | some e ↦ some e.jar ]

-- The jars handed out are numbered below `made`, and each belongs to one key.
pub record Owned (m : Dict JarEntry) (made : ℕ) : Type 0 where
  pub below : (k : Bytes) (n : ℕ) → jar_of k m ≡ some n → n < made
  pub one : (k j : Bytes) (n : ℕ) → jar_of k m ≡ some n → jar_of j m ≡ some n → k ≡ j

pub record Inv (s : SessionJars) : Type 0 where
  pub distinct : Distinct s.jars
  pub bounded : length s.jars ≤ max_jars
  pub owned : Owned s.jars s.made

no_jar : (k : Bytes) (n : ℕ) → jar_of k [] ≡ some n → ⊥
unfolding lookup
no_jar k n h = cc

jar_of-insert :
    (key k : Bytes) (e : JarEntry) (m : Dict JarEntry)
    → jar_of k (insert key e m) ≡ (if same key k then some e.jar else jar_of k m)
jar_of-insert key k e m = ground (arith, lookup-insert key k e m)

-- A table that holds no jar under a key but what another holds there is owned like it.
Owned-part :
    (m t : Dict JarEntry) (made : ℕ)
    → ((k : Bytes) (n : ℕ) → jar_of k t ≡ some n → jar_of k m ≡ some n)
    → Owned m made
    → Owned t made
Owned-part m t made h o = record {
  below = λ k n l. o.below k n (h k n l);
  one = λ k j n l i. o.one k j n (h k n l) (h j n i);
}

-- An entry that is touched keeps its jar.
touched_jar :
    (m : Dict JarEntry) (now : ℕ) (key : Bytes) (e : JarEntry) (k : Bytes) (n : ℕ)
    → lookup key m ≡ some e
    → jar_of k (insert key (record { jar = e.jar; touched = now }) m) ≡ some n
    → jar_of k m ≡ some n
touched_jar m now key e k n l h =
    ground (arith, jar_of-insert key k (record { jar = e.jar; touched = now }) m, same_iff key k)

swept_jar :
    (stays : JarEntry → Bool) (m : Dict JarEntry) (k : Bytes) (n : ℕ)
    → Distinct m
    → jar_of k (sweep stays m) ≡ some n
    → jar_of k m ≡ some n
swept_jar stays m k n d h = ground (arith, lookup-sweep stays k m d)

Owned-create :
    (m : Dict JarEntry) (made now : ℕ) (key : Bytes)
    → Owned m made
    → Owned (insert key (record { jar = made; touched = now }) m) (suc made)
Owned-create m made now key o =
    let at = λ (k : Bytes). jar_of-insert key k (record { jar = made; touched = now }) m in
    record {
      below = λ k n l. ground (arith, at k, o.below k n);
      one = λ k j n l i. ground (
        arith,
        at k,
        at j,
        same_iff key k,
        same_iff key j,
        o.below k n,
        o.below j n,
        o.one k j n,
      );
    }

touched_Inv :
    (now : ℕ) (key : Bytes) (e : JarEntry) (s : SessionJars)
    → lookup key s.jars ≡ some e
    → Inv s
    → Inv
        (record { jars = insert key (record { jar = e.jar; touched = now }) s.jars; made = s.made })
touched_Inv now key e s l v =
    let touch : JarEntry = record { jar = e.jar; touched = now } in
    record {
      distinct = insert-Distinct key touch s.jars v.distinct;
      bounded = omega (arith, v.bounded, length-insert_known key touch e s.jars l);
      owned = Owned-part s.jars _ s.made (λ k n h. touched_jar s.jars now key e k n l h) v.owned;
    }

swept_Inv :
    (now : ℕ) (s : SessionJars)
    → Inv s
    → Inv (record { jars = sweep (fresh now) s.jars; made = s.made })
swept_Inv now s v = record {
  distinct = sweep-Distinct (fresh now) s.jars v.distinct;
  bounded = omega (arith, v.bounded, length-sweep (fresh now) s.jars);
  owned =
      Owned-part s.jars _ s.made (λ k n h. swept_jar (fresh now) s.jars k n v.distinct h) v.owned;
}

created_Inv :
    (now : ℕ) (key : Bytes) (s : SessionJars)
    → length s.jars < max_jars
    → Inv s
    → Inv (record {
      jars = insert key (record { jar = s.made; touched = now }) s.jars;
      made = suc s.made;
    })
created_Inv now key s l v =
    let made : JarEntry = record { jar = s.made; touched = now } in
    record {
      distinct = insert-Distinct key made s.jars v.distinct;
      bounded = omega (arith, l, length-insert key made s.jars);
      owned = Owned-create s.jars s.made now key v.owned;
    }

create-Inv :
    (now : ℕ) (key : Bytes) (created : Bool) (s : SessionJars)
    → Inv s
    → Inv (create now key created s).0
unfolding create
create-Inv now key created s v = elim (Bool-cases (leb max_jars (length s.jars) || not created)) [
  | inl e ↦ rw e v
  | inr e ↦ rw e (created_Inv now key s (ground arith) v)
]

get-Inv :
    (now : ℕ) (key : Bytes) (created : Bool) (s : SessionJars)
    → Inv s
    → Inv (get now key created s).0
unfolding get
get-Inv now key created s v =
    let swept : SessionJars = record { jars = sweep (fresh now) s.jars; made = s.made } in
    elim (Option-cases (lookup key s.jars)) [
      | inl n ↦ ground (arith, v, create-Inv now key created swept (swept_Inv now s v))
      | inr (e, l) ↦ ground (arith, v, touched_Inv now key e s l v)
    ]

lookup_jar-Inv : (now : ℕ) (key : Bytes) (s : SessionJars) → Inv s → Inv (lookup_jar now key s).0
unfolding lookup_jar
lookup_jar-Inv now key s v = elim (Option-cases (lookup key s.jars)) [
  | inl n ↦ ground (arith, v)
  | inr (e, l) ↦ ground (arith, v, touched_Inv now key e s l v)
]

-- What the handler does with the table: get for a cookie to be stored, lookup for a request.
pub data Use : Type 0 where
  gets : ℕ → Bytes → Bool → Use
  looks : ℕ → Bytes → Use

-- The table after these uses, the newest first.
unfoldable pub after : List Use → SessionJars
after [] = record { jars = []; made = 0 }
after (gets now key created ∷ uses) = (get now key created (after uses)).0
after (looks now key ∷ uses) = (lookup_jar now key (after uses)).0

-- Over every sequence of uses the table holds at most maxJars jars, and no jar for two browsers.
pub after-Inv : (uses : List Use) → Inv (after uses)
unfolding after
after-Inv [] = record {
  distinct = tt;
  bounded = unfold max_jars in omega arith;
  owned = record {
    below = λ k n h. absurd (no_jar k n h);
    one = λ k j n h i. absurd (no_jar k n h);
  };
}
after-Inv (gets now key created ∷ uses) = get-Inv now key created (after uses) (after-Inv uses)
after-Inv (looks now key ∷ uses) = lookup_jar-Inv now key (after uses) (after-Inv uses)

-- The answer of get is the jar that the table held, or the next one, and the table holds it afterwards.
get_answer :
    (now : ℕ) (key : Bytes) (created : Bool) (s : SessionJars) (n : ℕ)
    → (get now key created s).1 ≡ some n
    → ((jar_of key s.jars ≡ some n) ⊎ (n ≡ s.made))
      × (jar_of key (get now key created s).0.jars ≡ some n)
unfolding get create
get_answer now key created s n h = elim (Option-cases (lookup key s.jars)) [
  | inl l ↦ (
    inr (ground arith),
    ground (
      arith,
      jar_of-insert key key (record { jar = s.made; touched = now }) (sweep (fresh now) s.jars),
      same_refl key,
    ),
  )
  | inr (e, l) ↦ (
    inl (ground arith),
    ground (
      arith,
      jar_of-insert key key (record { jar = e.jar; touched = now }) s.jars,
      same_refl key,
    ),
  )
]

-- Two calls of get, one after the other, give the same jar to one browser only.
pub get-get :
    (now later : ℕ) (key other : Bytes) (created again : Bool) (uses : List Use) (n : ℕ)
    → (get now key created (after uses)).1 ≡ some n
    → (get later other again (get now key created (after uses)).0).1 ≡ some n
    → key ≡ other
get-get now later key other created again uses n h i =
    let s = (get now key created (after uses)).0 in
    let v = get-Inv now key created (after uses) (after-Inv uses) in
    let held = (get_answer now key created (after uses) n h).1 in
    elim (get_answer later other again s n i).0 [
      | inl l ↦ v.owned.one key other n held l
      | inr e ↦ ground (arith, v.owned.below key n held)
    ]
