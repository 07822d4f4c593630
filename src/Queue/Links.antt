-- ===== src/Queue/Links.antt =====
-- The neighbours of an address in a list of addresses, and what removing an address or adding one
-- at the end does to them.
use gummy.Prelude.{
  ◌≡◌, refl, ◌≢◌, true, false, ◌||◌, List, [], ◌∷◌, ◌++◌, arith, ◌==◌, if◌then◌else◌, has, erase,
  distinct,
}
use gummy.Queue.{Ptr, null}

abbrev pub first_of : List Ptr → Ptr
first_of [] = null
first_of (x ∷ xs) = x

-- The last element, or `p` if there is none.
abbrev pub last_of : Ptr → List Ptr → Ptr
last_of p [] = p
last_of p (x ∷ xs) = last_of x xs

-- The element behind `a`.
abbrev pub next_of : List Ptr → Ptr → Ptr
next_of [] a = null
next_of (x ∷ xs) a = if x == a then first_of xs else next_of xs a

-- The element before `a`, where `p` stands before the list.
abbrev pub prev_of : Ptr → List Ptr → Ptr → Ptr
prev_of p [] a = null
prev_of p (x ∷ xs) a = if x == a then p else prev_of x xs a

pub has-prev_of :
    (p : Ptr) (xs : List Ptr) (a : Ptr)
    → has a xs ≡ true
    → (prev_of p xs a == p || has (prev_of p xs a) xs) ≡ true
has-prev_of p [] a h = ground arith
has-prev_of p (x ∷ xs) a h = ground (arith, has-prev_of x xs a)

pub has-first_of : (xs : List Ptr) → (first_of xs == null || has (first_of xs) xs) ≡ true
has-first_of [] = refl
has-first_of (x ∷ xs) = ground arith

pub has-next_of : (xs : List Ptr) (a : Ptr) → (next_of xs a == null || has (next_of xs a) xs) ≡ true
has-next_of [] a = refl
has-next_of (x ∷ xs) a = ground (arith, has-next_of xs a, has-first_of xs)

pub next_of-ne : (xs : List Ptr) (a : Ptr) → distinct xs ≡ true → a ≢ null → next_of xs a ≢ a
next_of-ne [] a d n = λ e. ground arith
next_of-ne (x ∷ xs) a d n = ground (arith, next_of-ne xs a, has-first_of xs)

pub prev_of-ne :
    (p : Ptr) (xs : List Ptr) (a : Ptr)
    → distinct xs ≡ true
    → has p xs ≡ false
    → has a xs ≡ true
    → prev_of p xs a ≢ a
prev_of-ne p [] a d out h = ground arith
prev_of-ne p (x ∷ xs) a d out h = ground (arith, prev_of-ne x xs a)

pub first_of-erase :
    (p : Ptr) (xs : List Ptr) (a : Ptr)
    → distinct xs ≡ true
    → has p xs ≡ false
    → has a xs ≡ true
    → first_of (erase a xs) ≡ (if prev_of p xs a == p then next_of xs a else first_of xs)
first_of-erase p [] a d out h = ground arith
first_of-erase p (x ∷ xs) a d out h = ground (arith, has-prev_of x xs a)

pub last_of-erase :
    (p : Ptr) (xs : List Ptr) (a : Ptr)
    → distinct xs ≡ true
    → has null xs ≡ false
    → has a xs ≡ true
    → last_of p (erase a xs) ≡ (if next_of xs a == null then prev_of p xs a else last_of p xs)
last_of-erase p [] a d out h = ground arith
last_of-erase p (x ∷ []) a d out h = ground arith
last_of-erase p (x ∷ y ∷ xs) a d out h = ground (arith, last_of-erase x (y ∷ xs) a)

pub next_of-erase :
    (p : Ptr) (xs : List Ptr) (a b : Ptr)
    → distinct xs ≡ true
    → has p xs ≡ false
    → has a xs ≡ true
    → has b xs ≡ true
    → b ≢ a
    → next_of (erase a xs) b ≡ (if b == prev_of p xs a then next_of xs a else next_of xs b)
next_of-erase p [] a b d out h k n = ground arith
next_of-erase p (x ∷ xs) a b d out h k n =
    ground (arith, next_of-erase x xs a b, first_of-erase x xs a)

pub prev_of-erase :
    (p : Ptr) (xs : List Ptr) (a b : Ptr)
    → distinct xs ≡ true
    → has null xs ≡ false
    → has a xs ≡ true
    → has b xs ≡ true
    → b ≢ a
    → prev_of p (erase a xs) b ≡ (if b == next_of xs a then prev_of p xs a else prev_of p xs b)
prev_of-erase p [] a b d out h k n = ground arith
prev_of-erase p (x ∷ []) a b d out h k n = ground arith
prev_of-erase p (x ∷ y ∷ xs) a b d out h k n =
    ground (arith, prev_of-erase x (y ∷ xs) a b, has-next_of (y ∷ xs) a)

pub has-last_of : (p : Ptr) (xs : List Ptr) → (last_of p xs == p || has (last_of p xs) xs) ≡ true
has-last_of p [] = ground arith
has-last_of p (x ∷ xs) = ground (arith, has-last_of x xs)

pub first_of-append :
    (xs : List Ptr) (a : Ptr)
    → has null xs ≡ false
    → first_of (xs ++ a ∷ []) ≡ (if last_of null xs == null then a else first_of xs)
first_of-append [] a out = refl
first_of-append (x ∷ xs) a out = ground (arith, has-last_of x xs)

pub last_of-append : (p : Ptr) (xs : List Ptr) (a : Ptr) → last_of p (xs ++ a ∷ []) ≡ a
last_of-append p [] a = refl
last_of-append p (x ∷ xs) a = last_of-append x xs a

pub next_of-append :
    (p : Ptr) (xs : List Ptr) (a b : Ptr)
    → distinct xs ≡ true
    → has p xs ≡ false
    → has a xs ≡ false
    → has b xs ≡ true
    → next_of (xs ++ a ∷ []) b ≡ (if b == last_of p xs then a else next_of xs b)
next_of-append p [] a b d out h k = ground arith
next_of-append p (x ∷ []) a b d out h k = ground arith
next_of-append p (x ∷ y ∷ xs) a b d out h k =
    ground (arith, next_of-append x (y ∷ xs) a b, has-last_of x (y ∷ xs), has-last_of y xs)

pub next_of-append_self :
    (xs : List Ptr) (a : Ptr) → has a xs ≡ false → next_of (xs ++ a ∷ []) a ≡ null
next_of-append_self [] a h = ground arith
next_of-append_self (x ∷ xs) a h = ground (arith, next_of-append_self xs a)

pub prev_of-append :
    (p : Ptr) (xs : List Ptr) (a b : Ptr)
    → has a xs ≡ false
    → (has b xs || b == a) ≡ true
    → prev_of p (xs ++ a ∷ []) b ≡ (if b == a then last_of p xs else prev_of p xs b)
prev_of-append p [] a b h k = ground arith
prev_of-append p (x ∷ xs) a b h k = ground (arith, prev_of-append x xs a b)
