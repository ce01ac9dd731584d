-- ===== src/Api/Headers.antt =====
-- Which requests carry the access token (`doFetch` of web/src/lib/api.ts).
use sky_panel.Base.{
  String, Option, none, some, ◌&&◌, ◌≡◌, arith, lookup, nonempty, if◌then◌else◌, is_some,
}
use sky_panel.Api.{Call, do_fetch, bearer}

-- A request carries an Authorization header exactly when its call asks for one and there is a
-- token that is not empty, and then it is that token's; it declares a JSON body exactly when it
-- has one.
pub do_fetch-headers :
    (base : String) (call : Call) (token : Option String)
    → let h = (do_fetch base call token).headers in
      (lookup "Authorization" h ≡ elim token [
        | none ↦ none
        | some t ↦ if call.auth && nonempty t then some (bearer t) else none
      ])
      × (is_some (lookup "Content-Type" h) ≡ is_some (do_fetch base call token).body)
unfolding do_fetch lookup
do_fetch-headers base call none = ground arith
do_fetch-headers base call (some t) = ground arith
