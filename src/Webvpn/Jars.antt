-- ===== src/Webvpn/Jars.antt =====
-- internal/webvpn/jar.go: one cookie jar per signed-in browser. A jar is known by its number: the
-- `made`-th successful call of cookiejar.New gives the jar `made`, so that two browsers share a jar
-- where they share a number. What a jar holds is the standard library's.
pub mod Isolation
mod Tests
use wvpn.Base.{
  ℕ, suc, ◌+◌, Bool, true, false, not, ◌&&◌, ◌||◌, List, [], ◌∷◌, ◌++◌, Option, none, some,
  if◌then◌else◌, is_empty, ltb, leb, length, any,
}
use wvpn.Text.{Bytes, same, split, cut, trim_space}
use wvpn.Dict.{Dict, lookup, insert, sweep}

abbrev pub jar_idle_ttl : ℕ
jar_idle_ttl = 43_200_000_000_000

-- A constant of the source, kept shut.
unfoldable pub max_jars : ℕ
max_jars = 20000

pub record JarEntry : Type 0 where
  pub jar : ℕ
  pub touched : ℕ

pub record SessionJars : Type 0 where
  pub jars : Dict JarEntry
  pub made : ℕ

-- The condition of sweepLocked, turned round.
abbrev pub fresh : ℕ → JarEntry → Bool
fresh now e = not (ltb (e.touched + jar_idle_ttl) now)

-- get once the key is not in the table and the table has been swept. `created` says whether
-- cookiejar.New succeeds.
unfoldable pub create : ℕ → Bytes → Bool → SessionJars → SessionJars × Option ℕ
unfolding insert
create now key created s = if leb max_jars (length s.jars) || not created then (s, none) else (
  record { jars = insert key (record { jar = s.made; touched = now }) s.jars; made = suc s.made },
  some s.made,
)

-- get
unfoldable pub get : ℕ → Bytes → Bool → SessionJars → SessionJars × Option ℕ
unfolding create lookup insert sweep
get now key created s = if is_empty key then (s, none) else elim (lookup key s.jars) [
  | some e ↦ (
    record { jars = insert key (record { jar = e.jar; touched = now }) s.jars; made = s.made },
    some e.jar,
  )
  | none ↦ create now key created (record { jars = sweep (fresh now) s.jars; made = s.made })
]

-- lookup
unfoldable pub lookup_jar : ℕ → Bytes → SessionJars → SessionJars × Option ℕ
unfolding lookup insert
lookup_jar now key s = if is_empty key then (s, none) else elim (lookup key s.jars) [
  | none ↦ (s, none)
  | some e ↦ (
    record { jars = insert key (record { jar = e.jar; touched = now }) s.jars; made = s.made },
    some e.jar,
  )
]

-- jarPairs, of the cookies that the jar gives for the target and the names that are taken.
unfoldable pub jar_pairs : List Bytes → List (Bytes × Bytes) → List Bytes
unfolding same
jar_pairs taken [] = []
jar_pairs taken ((name, value) ∷ cookies) =
    let rest = jar_pairs taken cookies in
    if any (λ t. same t name) taken then rest else (name ++ (b'=' ∷ value)) ∷ rest

-- jarKey, with the hex digits of the first 16 bytes of the hash as an argument.
module _ (digest : Bytes → Bytes) where
  unfoldable pub jar_key : Bytes → Bytes
  jar_key token = if is_empty token then [] else digest token

  unfoldable pub key_of_pairs : Bytes → List Bytes → Bytes
  unfolding cut trim_space same jar_key
  key_of_pairs name [] = []
  key_of_pairs name (pair ∷ pairs) =
      let rest = key_of_pairs name pairs in
      let (n, v, found) = cut b'=' (trim_space pair) in
      if found && same (trim_space n) name then jar_key v else rest

  -- sessionKey, of the option SessionCookie and the Cookie header.
  unfoldable pub session_key : Bytes → Bytes → Bytes
  unfolding key_of_pairs split
  session_key name header = if is_empty name then [] else key_of_pairs name (split b';' header)
