-- ===== src/Apiclient/Laws.antt =====
-- apiclient/client.go: what tags are identified, and what a request can return.
use brawl_stars_guide.Base.{
  ℕ, ◌≤◌, ◌⊎◌, ◌≡◌, refl, Bool, true, false, Text, codes, [], ◌∷◌, ◌++◌, Option, Error, err, arith,
  ap, ◌==◌, if◌then◌else◌,
}
use brawl_stars_guide.Apiclient.Tags.{
  to_upper_rune, to_upper, trim_hash, normalize_tag, encoded_tag,
}
use brawl_stars_guide.Apiclient.Client.{
  Client, response, base_url, get, is_not_found, is_too_many_requests, is_unauthorized,
  is_forbidden,
}

-- unicode.ToUpper from the code point 128 on: it yields a code point from 128 on or an ASCII capital
-- letter (as 'I' from U+0131 and 'S' from U+017F), and applied twice, it is itself applied once.
pub record IsUpperTable (wide : ℕ → ℕ) : Type 0 where
  pub lands : (c : ℕ) → 128 ≤ c → (128 ≤ wide c) ⊎ ((b'A' ≤ wide c) × (wide c ≤ b'Z'))
  pub idem : (c : ℕ) → 128 ≤ c → 128 ≤ wide c → wide (wide c) ≡ wide c

upper_rune_idem :
    (wide : ℕ → ℕ) (c : ℕ)
    → IsUpperTable wide
    → to_upper_rune wide (to_upper_rune wide c) ≡ to_upper_rune wide c
unfolding to_upper_rune
upper_rune_idem wide c u = ground (arith, u.lands c, u.idem c)

upper_idem :
    (wide : ℕ → ℕ) (t : Text)
    → IsUpperTable wide
    → to_upper wide (to_upper wide t) ≡ to_upper wide t
upper_idem wide [] u = refl
upper_idem wide (c ∷ t) u = cc (upper_rune_idem wide c u, upper_idem wide t u)

-- A tag that begins with no second '#'.
abbrev pub no_hash : Text → Bool
no_hash [] = true
no_hash (c ∷ t) = if c == b'#' then false else true

trim_no_hash : (t : Text) → no_hash t ≡ true → trim_hash t ≡ t
unfolding trim_hash
trim_no_hash [] h = refl
trim_no_hash (c ∷ t) h = ground arith

upper_no_hash :
    (wide : ℕ → ℕ) (t : Text)
    → IsUpperTable wide
    → no_hash t ≡ true
    → no_hash (to_upper wide t) ≡ true
unfolding to_upper_rune
upper_no_hash wide [] u h = refl
upper_no_hash wide (c ∷ t) u h = ground (arith, u.lands c)

-- A tag and the tag with a '#' before it name one player, whose normal form is a normal form: for a
-- tag t without a '#' in front, "#" ++ t and t normalize alike, to a fixed point of normalization,
-- and the client requests the same path for t, "#" ++ t and the normal form.
pub normalize_tag_canonical :
    (wide : ℕ → ℕ) (t : Text)
    → IsUpperTable wide
    → no_hash t ≡ true
    → (normalize_tag wide (codes "#" ++ t) ≡ normalize_tag wide t)
      × (normalize_tag wide (normalize_tag wide t) ≡ normalize_tag wide t)
      × (encoded_tag wide (codes "#" ++ t) ≡ encoded_tag wide t)
      × (encoded_tag wide (normalize_tag wide t) ≡ encoded_tag wide t)
unfolding normalize_tag encoded_tag
normalize_tag_canonical wide t u h =
    let bare = trim_no_hash t h in
    let upper = trim_no_hash (to_upper wide t) (upper_no_hash wide t u h) in
    let twice = upper_idem wide t u in
    (rw bare, rw (bare, upper) twice, rw bare, rw (bare, upper) (ap (λ s. codes "%23" ++ s) twice))

-- The error of an answered request tells its status: the four tests by which callers tell errors
-- apart hold exactly for the statuses 401, 403, 404 and 429, also where the body is not decoded.
pub get_error_class {ℓ} :
    {A : Type ℓ} (c : Client) (decode : Text → Option A) (path : Text) (status : ℕ) (body : Text)
    (e : Error)
    → c.network.send c.token (base_url ++ path) ≡ response status body
    → c.network.valid_request (base_url ++ path) ≡ true
    → get c decode path ≡ err e
    → (is_unauthorized e ≡ (status == 401))
      × (is_forbidden e ≡ (status == 403))
      × (is_not_found e ≡ (status == 404))
      × (is_too_many_requests e ≡ (status == 429))
unfolding get is_unauthorized is_forbidden is_not_found is_too_many_requests
get_error_class c decode path status body e s v h = ground arith
