-- ===== src/Aggregate/Names.antt =====
-- handler.go and aggregate.go: when a namespaced name is taken apart into what it was made of.
use mcp_gateway_w.Prelude.{◌≡◌, ◌↔◌, ◌≢◌, refl, ◌⊎◌, [], ◌∷◌, some, Text, arith}
use mcp_gateway_w.Aggregate.{full_name, cut}

-- No two underscores stand together in the text followed by one underscore: the text holds no
-- "__" and does not end in '_'.
abbrev pub IsRoutable : Text → Type 0
IsRoutable [] = Unit
IsRoutable (a ∷ []) = a ≢ b'_'
IsRoutable (a ∷ b ∷ s) = ((a ≢ b'_') ⊎ (b ≢ b'_')) × IsRoutable (b ∷ s)

cut-full_name : (slug tool : Text) → IsRoutable slug → cut (full_name slug tool) ≡ some (slug, tool)
unfolding cut
cut-full_name [] tool h = refl
cut-full_name (a ∷ []) tool h = ground arith
cut-full_name (a ∷ b ∷ s) tool h = ground (arith, cut-full_name (b ∷ s) tool h.1)

IsRoutable-of_cut :
    (slug tool : Text) → cut (full_name slug tool) ≡ some (slug, tool) → IsRoutable slug
unfolding cut
IsRoutable-of_cut [] tool h = tt
IsRoutable-of_cut (a ∷ []) tool h = ground arith
IsRoutable-of_cut (a ∷ b ∷ s) tool h = (ground arith, IsRoutable-of_cut (b ∷ s) tool (ground arith))

-- `tools/call` takes a namespaced name apart into the slug and the tool that made it exactly when
-- the slug holds no "__" and does not end in an underscore.
pub cut-full_name_iff :
    (slug tool : Text) → (cut (full_name slug tool) ≡ some (slug, tool)) ↔ IsRoutable slug
cut-full_name_iff slug tool = (IsRoutable-of_cut slug tool, cut-full_name slug tool)
