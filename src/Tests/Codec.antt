-- ===== src/Tests/Codec.antt =====
-- A platform for examples: `JSON.stringify` is a text in which the parts of a value follow one
-- another, each with its end marked, and `JSON.parse` reads it back.
use package.text.Mathlib.TextLemmas.{cons≢nil}
use sky_panel.Base.{
  ℕ, zero, suc, Char, code, String, Option, none, some, Bool, true, false, ◌≡◌, refl, nonempty,
  nonempty_of_ne-empty, ◌==◌, if◌then◌else◌,
}
use sky_panel.Base.Int.{ℤ, pos, negsuc}
use sky_panel.Wire.Account.{Role}
use sky_panel.Auth.{StoredAuth, Platform, IsFaithful}

-- A value in front of a rest, and back.
pub record Codec (A : Type 0) : Type 0 where
  pub put : A → String → String
  pub get : String → Option (A × String)
  pub get-put : (a : A) (r : String) → get (put a r) ≡ some (a, r)

abbrev pub put_text : String → String → String
put_text String.[] r = String.◌∷◌ "y" r
put_text (String.◌∷◌ c s) r = String.◌∷◌ "x" (String.◌∷◌ c (put_text s r))

abbrev pub push_char : Char → Option (String × String) → Option (String × String)
push_char c none = none
push_char c (some (s, r)) = some (String.◌∷◌ c s, r)

abbrev pub get_text : String → Option (String × String)
get_text String.[] = none
get_text (String.◌∷◌ m String.[]) = some (String.[], String.[])
get_text (String.◌∷◌ m (String.◌∷◌ c s)) =
    let more = push_char c (get_text s) in
    if code m == b'x' then more else some (String.[], String.◌∷◌ c s)

pub get_text-put_text : (s r : String) → get_text (put_text s r) ≡ some (s, r)
get_text-put_text String.[] String.[] = refl
get_text-put_text String.[] (String.◌∷◌ c r) = refl
get_text-put_text (String.◌∷◌ c s) r = rw (get_text-put_text s r)

abbrev pub text : Codec String
text = record { put = put_text; get = get_text; get-put = get_text-put_text }

module _ {A B : Type 0} (c : Codec A) (d : Codec B) where
  abbrev pub get_second : Option (A × String) → Option ((A × B) × String)
  get_second none = none
  get_second (some (a, r)) = elim (d.get r) [ none ↦ none | some (b, r') ↦ some ((a, b), r') ]

  abbrev pub put_pair : A × B → String → String
  put_pair (a, b) r = c.put a (d.put b r)

  pub pair_lem : (ab : A × B) (r : String) → get_second (c.get (put_pair ab r)) ≡ some (ab, r)
  pair_lem (a, b) r = rw (c.get-put a (d.put b r)) (rw (d.get-put b r, get_second))

  abbrev pub pair : Codec (A × B)
  pair = record { put = put_pair; get = λ s. get_second (c.get s); get-put = pair_lem }

module _ {A B : Type 0} (to : A → B) (from : B → A) (back : (b : B) → to (from b) ≡ b)
    (c : Codec A) where
  abbrev pub convert : Option (A × String) → Option (B × String)
  convert none = none
  convert (some (a, r)) = some (to a, r)

  pub along_lem : (b : B) (r : String) → convert (c.get (c.put (from b) r)) ≡ some (b, r)
  along_lem b r = rw (c.get-put (from b) r) (rw (back b))

  abbrev pub along : Codec B
  along = record {
    put = λ b r. c.put (from b) r;
    get = λ s. convert (c.get s);
    get-put = along_lem;
  }

abbrev pub unary : ℕ → String
unary zero = ""
unary (suc n) = String.◌∷◌ "x" (unary n)

abbrev pub size : String → ℕ
size String.[] = 0
size (String.◌∷◌ c s) = suc (size s)

pub size-unary : (n : ℕ) → size (unary n) ≡ n
size-unary zero = refl
size-unary (suc n) = rw (size-unary n)

abbrev pub number : Codec ℕ
number = along size unary size-unary text

abbrev pub of_bool : Bool → ℕ
of_bool true = 1
of_bool false = 0

abbrev pub to_bool : ℕ → Bool
to_bool zero = false
to_bool (suc n) = true

pub to_bool-of_bool : (b : Bool) → to_bool (of_bool b) ≡ b
to_bool-of_bool true = refl
to_bool-of_bool false = refl

abbrev pub flag : Codec Bool
flag = along to_bool of_bool to_bool-of_bool number

abbrev pub of_int : ℤ → Bool × ℕ
of_int (pos n) = (true, n)
of_int (negsuc n) = (false, n)

abbrev pub to_int : Bool × ℕ → ℤ
to_int (b, n) = if b then pos n else negsuc n

pub to_int-of_int : (z : ℤ) → to_int (of_int z) ≡ z
to_int-of_int (pos n) = refl
to_int-of_int (negsuc n) = refl

abbrev pub integer : Codec ℤ
integer = along to_int of_int to_int-of_int (pair flag number)

abbrev pub of_role : Role → Bool
of_role Role.admin = true
of_role Role.user = false

abbrev pub to_role : Bool → Role
to_role b = if b then Role.admin else Role.user

pub to_role-of_role : (r : Role) → to_role (of_role r) ≡ r
to_role-of_role Role.admin = refl
to_role-of_role Role.user = refl

abbrev pub role : Codec Role
role = along to_role of_role to_role-of_role flag

abbrev pub Parts : Type 0
Parts = (String × String) × ((String × String) × ((String × Role) × (Bool × ℤ)))

abbrev pub of_auth : StoredAuth → Parts
of_auth a = (
  (a.access_token, a.refresh_token),
  (
    (a.user.id, a.user.email),
    ((a.user.username, a.user.role), (a.user.totp_enabled, a.user.coins)),
  ),
)

abbrev pub to_auth : Parts → StoredAuth
to_auth ((a, r), ((i, e), ((n, o), (t, c)))) = record {
  access_token = a;
  refresh_token = r;
  user = record { id = i; email = e; username = n; role = o; totp_enabled = t; coins = c };
}

abbrev pub auth : Codec StoredAuth
auth =
    along to_auth of_auth (λ a. refl)
      (pair (pair text text) (pair (pair text text) (pair (pair text role) (pair flag integer))))

abbrev pub parsed : Option (StoredAuth × String) → Option (Option StoredAuth)
parsed none = none
parsed (some (a, r)) = some (some a)

-- A browser whose localStorage refuses the writes that `full` names.
abbrev pub browser : (String → Bool) → Platform
browser full = record {
  stringify = λ a. auth.put a "";
  parse = λ s. parsed (auth.get s);
  accepts = λ storage key value. if full key then false else true;
}

pub put_text-nonempty : (s r : String) → nonempty (put_text s r) ≡ true
put_text-nonempty String.[] r = nonempty_of_ne-empty (String.◌∷◌ "y" r) cons≢nil
put_text-nonempty (String.◌∷◌ c s) r =
    nonempty_of_ne-empty (String.◌∷◌ "x" (String.◌∷◌ c (put_text s r))) cons≢nil

pub browser-IsFaithful : (full : String → Bool) → IsFaithful (browser full)
browser-IsFaithful full = record {
  nonempty_text = λ a. put_text-nonempty a.access_token _;
  round_trip = λ a. rw (auth.get-put a "");
}
