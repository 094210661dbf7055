-- ===== src/Limits/Window.antt =====
-- How many calls the rate limiter lets through.
use Prim.Native.String.{String}
use text.Mathlib.TextEquality.{eq_iff}
use attest_so.Prelude.{
  ℕ, suc, ◌+◌, ◌≤◌, ◌<◌, ◌≡◌, refl, sym, subst, ap, ◌∙◌, ◌⊎◌, inl, inr, Bool, true, false, ◌&&◌,
  List, [], ◌∷◌, ◌++◌, length, length-append, filter, leb, ◌is◌, if◌then◌else◌, Bool-cases, arith,
}
use attest_so.Limits.Limiter.{Requests, set, in_window, can_proceed, get_remaining_requests}

filter-append :
    {A : Type 0} (p : A → Bool) (xs ys : List A) → filter p (xs ++ ys) ≡ filter p xs ++ filter p ys
filter-append p [] ys = refl
filter-append p (x ∷ xs) ys = elim (Bool-cases (p x)) [
  | inl y ↦ rw y (ap (λ r. x ∷ r) (filter-append p xs ys))
  | inr n ↦ rw n (filter-append p xs ys)
]

module _ (w m n : ℕ) (later : m ≤ n) where
  -- What is in the window later is in it now.
  stays : (t : ℕ) → in_window n w t ≡ true → in_window m w t ≡ true
  stays t h = ground arith

  filter-filter :
      (ts : List ℕ) → filter (in_window n w) (filter (in_window m w) ts) ≡ filter (in_window n w) ts
  filter-filter [] = refl
  filter-filter (t ∷ ts) = elim (Bool-cases (in_window n w t)) [
    | inl y ↦ rw (y, stays t y) (rw y (ap (λ r. t ∷ r) (filter-filter ts)))
    | inr gone ↦ elim (Bool-cases (in_window m w t)) [
      | inl early ↦ rw (gone, early) (rw gone (filter-filter ts))
      | inr never ↦ rw (gone, never) (filter-filter ts)
    ]
  ]

  length-filter_later :
      (ts : List ℕ) → length (filter (in_window n w) ts) ≤ length (filter (in_window m w) ts)
  length-filter_later [] = omega arith
  length-filter_later (t ∷ ts) = elim (Bool-cases (in_window n w t)) [
    | inl y ↦ rw (y, stays t y) (omega (arith, length-filter_later ts))
    | inr gone ↦ elim (Bool-cases (in_window m w t)) [
      | inl early ↦ rw (gone, early) (omega (arith, length-filter_later ts))
      | inr never ↦ rw (gone, never) (length-filter_later ts)
    ]
  ]

-- The times at which calls with the key `key` are let through, behind those in `granted`, for calls
-- with one limit and one window.
unfoldable pub serve : String → ℕ → ℕ → List (String × ℕ) → Requests → List ℕ → List ℕ
serve key limit w [] requests granted = granted
serve key limit w ((k, now) ∷ calls) requests granted =
    let (ok, after) = can_proceed k limit w now requests in
    serve key limit w calls after (if ok && (k is key) then granted ++ now ∷ [] else granted)

-- The calls follow each other in time, from `t` on and up to `n`.
abbrev InOrder : ℕ → List (String × ℕ) → ℕ → Type 0
InOrder t [] n = t ≤ n
InOrder t ((k, now) ∷ calls) n = (t ≤ now) × InOrder now calls n

-- What the map holds for the key stands for the calls let through, from time `t` on.
record Keeps (key : String) (limit w t : ℕ) (requests : Requests) (granted : List ℕ) : Type 0 where
  window : (n : ℕ) → t ≤ n → filter (in_window n w) (requests key) ≡ filter (in_window n w) granted
  few : (n : ℕ) → t ≤ n → length (filter (in_window n w) granted) ≤ limit

Keeps-later :
    (key : String) (limit w t now : ℕ) (requests : Requests) (granted : List ℕ)
    → t ≤ now
    → Keeps key limit w t requests granted
    → Keeps key limit w now requests granted
Keeps-later key limit w t now requests granted h k = record {
  window = λ n l. k.window n (omega arith);
  few = λ n l. k.few n (omega arith);
}

-- A call that is let through, for the key.
Keeps-granted :
    (key : String) (limit w now : ℕ) (requests : Requests) (granted : List ℕ)
    → Keeps key limit w now requests granted
    → length (filter (in_window now w) (requests key)) < limit
    → Keeps key limit w now
        (set key (filter (in_window now w) (requests key) ++ now ∷ []) requests)
        (granted ++ now ∷ [])
Keeps-granted key limit w now requests granted k room = record {
  window = λ n l. rw (key_is_key) (
      filter-append (in_window n w) (filter (in_window now w) (requests key)) (now ∷ [])
      ∙ ap (λ r. r ++ filter (in_window n w) (now ∷ []))
          (filter-filter w now n l (requests key) ∙ k.window n l)
      ∙ sym (filter-append (in_window n w) granted (now ∷ [])));
  few = λ n l. rw (filter-append (in_window n w) granted (now ∷ [])) (
      omega (
        arith,
        room,
        ap length (k.window now (omega arith)),
        length-append (filter (in_window n w) granted) (filter (in_window n w) (now ∷ [])),
        length-filter_later w now n l granted,
        at_most_one n,
      ));
}
  where
    key_is_key : (key is key) ≡ true
    key_is_key = (eq_iff key key).1 refl

    at_most_one : (n : ℕ) → length (filter (in_window n w) (now ∷ [])) ≤ 1
    at_most_one n = ground arith

is-sym : (s t : String) → (s is t) ≡ false → (t is s) ≡ false
is-sym s t h = elim (Bool-cases (t is s)) [
  | inl y ↦ absurd (cc (h, (eq_iff s t).1 (sym ((eq_iff t s).0 y))))
  | inr n ↦ n
]

-- A call that is let through, for another key.
Keeps-other :
    (key c : String) (limit w now : ℕ) (requests : Requests) (times granted : List ℕ)
    → (c is key) ≡ false
    → Keeps key limit w now requests granted
    → Keeps key limit w now (set c times requests) granted
Keeps-other key c limit w now requests times granted other k = record {
  window = λ n l. rw (is-sym c key other) (k.window n l);
  few = k.few;
}

call-Keeps :
    (key c : String) (limit w now : ℕ) (requests : Requests) (granted : List ℕ)
    → Keeps key limit w now requests granted
    → Keeps key limit w now (can_proceed c limit w now requests).1 (
        if (can_proceed c limit w now requests).0 && (c is key)
        then granted ++ now ∷ []
        else granted)
unfolding can_proceed
call-Keeps key c limit w now requests granted k =
    elim (Bool-cases (leb limit (length (filter (in_window now w) (requests c))))) [
      | inl full ↦ rw full k
      | inr room ↦ elim (Bool-cases (c is key)) [
        | inl same ↦
            rw (room, same)
              (subst
                (λ d.
                  leb limit (length (filter (in_window now w) (requests d))) ≡ false
                  → Keeps key limit w now
                      (set d (filter (in_window now w) (requests d) ++ now ∷ []) requests)
                      (granted ++ now ∷ []))
                (sym ((eq_iff c key).0 same))
                (λ some_room.
                  Keeps-granted key limit w now requests granted k (ground (arith, some_room)))
                room)
        | inr other ↦ rw (room, other) (Keeps-other key c limit w now requests _ granted other k)
      ]
    ]

serve-few :
    (key : String) (limit w : ℕ) (calls : List (String × ℕ)) (requests : Requests)
    (granted : List ℕ) (t n : ℕ)
    → InOrder t calls n
    → Keeps key limit w t requests granted
    → length (filter (in_window n w) (serve key limit w calls requests granted)) ≤ limit
unfolding serve
serve-few key limit w [] requests granted t n h k = k.few n h
serve-few key limit w ((c, now) ∷ calls) requests granted t n (l, h) k =
    serve-few key limit w calls _ _ now n h (
      call-Keeps key c limit w now requests granted
        (Keeps-later key limit w t now requests granted l k))

-- Whatever keys the calls have: if the clock does not run backwards, no window of time that ends
-- now or later holds more than `maxRequests` calls of one key that were let through.
pub limiter_keeps_limit :
    (key : String) (limit w : ℕ) (calls : List (String × ℕ)) (n : ℕ)
    → InOrder 0 calls n
    → length (filter (in_window n w) (serve key limit w calls (λ k. []) [])) ≤ limit
limiter_keeps_limit key limit w calls n h =
    serve-few key limit w calls (λ k. []) [] 0 n h
      (record { window = λ m l. refl; few = λ m l. omega arith })

leb_false→lt : (a b : ℕ) → leb a b ≡ false → b < a
leb_false→lt a b h = ground arith

-- The call that was let through counts at once.
spent :
    (key : String) (w now : ℕ) (requests : Requests)
    → 0 < w
    → let times = filter (in_window now w) (requests key) ++ now ∷ [] in
      length (filter (in_window now w) (set key times requests key))
      ≡ suc (length (filter (in_window now w) (requests key)))
spent key w now requests some_window =
    let one : length (filter (in_window now w) (now ∷ [])) ≡ 1 = ground arith in
    let same : (key is key) ≡ true = (eq_iff key key).1 refl in
    rw same (
      rw (filter-append (in_window now w) (filter (in_window now w) (requests key)) (now ∷ [])) (
        omega (
          arith,
          one,
          ap length (filter-filter w now now (omega arith) (requests key)),
          length-append (filter (in_window now w) (filter (in_window now w) (requests key)))
              (filter (in_window now w) (now ∷ [])),
        )))

-- A call is let through exactly when some requests remain, and then it uses up one of them, if the
-- window is not empty; a refused call leaves the map as it is.
can_proceed_cases :
    (key : String) (limit w now : ℕ) (requests : Requests)
    → 0 < w
    → let left = get_remaining_requests key limit w now in
      ((can_proceed key limit w now requests ≡ (false, requests)) × (left requests ≡ 0))
      ⊎ ((after : Requests) × (can_proceed key limit w now requests ≡ (true, after))
          × (left after + 1 ≡ left requests))
unfolding can_proceed get_remaining_requests
can_proceed_cases key limit w now requests some_window =
    elim (Bool-cases (leb limit (length (filter (in_window now w) (requests key))))) [
      | inl full ↦ inl (rw full refl, ground (arith, full))
      | inr room ↦ inr (
        set key (filter (in_window now w) (requests key) ++ now ∷ []) requests,
        rw room refl,
        omega (
          arith,
          spent key w now requests some_window,
          leb_false→lt limit (length (filter (in_window now w) (requests key))) room,
        ),
      )
    ]
