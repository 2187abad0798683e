-- ===== src/DevApi.antt =====
-- services/control-plane/internal/devapi/devapi.go: the organizations that the console offers in
-- development. The lister of realms is an argument over its states.
mod Listing
mod Tests
use mcp_gateway_w.Prelude.{
  Bool, true, false, ◌||◌, List, [], ◌∷◌, Option, none, some, Text, lit, text_beq, if◌then◌else◌,
}
use mcp_gateway_w.Audit.{text_leb}
use mcp_gateway_w.Idp.{Answer, ok, failed}

pub data Reply : Type 0 where
  orgs : List Text → Reply
  bad_gateway : Reply

unfoldable pub is_system : Text → Bool
is_system r = text_beq r (lit "master") || text_beq r (lit "_platform")

unfoldable pub tenant_realms : List Text → List Text
unfolding is_system
tenant_realms [] = []
tenant_realms (r ∷ rs) = let rest = tenant_realms rs in if is_system r then rest else r ∷ rest

-- `sort.Strings`.
unfoldable pub insert_text : Text → List Text → List Text
unfolding text_leb
insert_text s [] = s ∷ []
insert_text s (t ∷ ts) =
    let rest = insert_text s ts in if text_leb s t then s ∷ t ∷ ts else t ∷ rest

unfoldable pub sort_texts : List Text → List Text
unfolding insert_text
sort_texts [] = []
sort_texts (s ∷ ts) = insert_text s (sort_texts ts)

abbrev reply_of : Answer (List Text) → Reply
reply_of (failed msg) = bad_gateway
reply_of (ok rs) = orgs (sort_texts (tenant_realms rs))

unfoldable pub list_orgs : {W : Type 0} → Option (W → Answer (List Text) × W) → W → Reply × W
unfolding tenant_realms sort_texts
list_orgs none w = (orgs [], w)
list_orgs (some lister) w = let (a, w1) = lister w in (reply_of a, w1)
