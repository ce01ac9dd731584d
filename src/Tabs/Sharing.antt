-- ===== src/Tabs/Sharing.antt =====
-- web/src/components/server/SharingTab.tsx: the permissions that a server's owner grants.
use sky_panel.Base.{
  ℕ, ◌==◌, ◌||◌, ap, ◌∙◌, String, Bool, false, not, List, [], ◌∷◌, ◌++◌, keep, any, if◌then◌else◌,
  ◌≡◌, refl, arith,
}
use sky_panel.Wire.Servers.{Permission}
use sky_panel.Endpoints.Subusers.{SubusersApi}

pub record Form : Type 0 where
  pub username : String
  pub permissions : List Permission

unfoldable pub rank : Permission → ℕ
rank Permission.console = 0
rank Permission.files = 1
rank Permission.power = 2
rank Permission.settings = 3
rank Permission.databases = 4

abbrev pub same : Permission → Permission → Bool
same p q = rank p == rank q

-- `permissions.includes(p)`
unfoldable pub includes : Permission → List Permission → Bool
includes p ps = any (λ q. same q p) ps

unfoldable pub toggle_permission : Permission → Form → Form
unfolding includes
toggle_permission p f = record f {
  permissions =
      if includes p f.permissions
      then keep (λ x. not (same x p)) f.permissions
      else f.permissions ++ p ∷ [];
}

unfoldable pub add_call : String → Form → SubusersApi
add_call server_id f = SubusersApi.add server_id f.username f.permissions

unfoldable pub added : Form → Form
added f = record { username = ""; permissions = [] }

-- The boxes that were clicked, in order
unfoldable pub toggle_all : List Permission → Form → Form
toggle_all [] f = f
toggle_all (p ∷ ps) f = toggle_all ps (toggle_permission p f)

-- Whether a permission is clicked an odd number of times, starting from `on`
unfoldable pub flipped : Permission → List Permission → Bool → Bool
flipped q [] on = on
flipped q (p ∷ ps) on = flipped q ps (if same p q then not on else on)

includes-append :
    (q p : Permission) (ps : List Permission)
    → includes q (ps ++ p ∷ []) ≡ (includes q ps || same p q)
unfolding includes
includes-append q p [] = ground arith
includes-append q p (x ∷ ps) = ground (arith, includes-append q p ps)

includes-keep :
    (q p : Permission) (ps : List Permission)
    → includes q (keep (λ x. not (same x p)) ps) ≡ (if same p q then false else includes q ps)
unfolding includes
includes-keep q p [] = ground arith
includes-keep q p (x ∷ ps) = ground (arith, includes-keep q p ps)

includes-rank :
    (p q : Permission) (ps : List Permission) → rank p ≡ rank q → includes p ps ≡ includes q ps
unfolding includes
includes-rank p q [] h = refl
includes-rank p q (x ∷ ps) h = ground (arith, includes-rank p q ps h)

includes-toggle_permission :
    (q p : Permission) (f : Form)
    → includes q (toggle_permission p f).permissions
      ≡ (if same p q then not (includes q f.permissions) else includes q f.permissions)
unfolding toggle_permission
includes-toggle_permission q p f = ground (
  arith,
  includes-append q p f.permissions,
  includes-keep q p f.permissions,
  includes-rank p q f.permissions,
)

-- After any clicks on the boxes, a permission is granted exactly if its box was clicked an odd number
-- of times, from what it was before.
pub includes-toggle_all :
    (q : Permission) (ps : List Permission) (f : Form)
    → includes q (toggle_all ps f).permissions ≡ flipped q ps (includes q f.permissions)
unfolding toggle_all flipped
includes-toggle_all q [] f = refl
includes-toggle_all q (p ∷ ps) f =
    includes-toggle_all q ps (toggle_permission p f)
    ∙ ap (flipped q ps) (includes-toggle_permission q p f)
