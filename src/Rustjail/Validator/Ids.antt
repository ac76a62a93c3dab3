-- ===== src/Rustjail/Validator/Ids.antt =====
-- A mapping of ids that reaches the last id (`has_idmapping` of rustjail/src/validator.rs).
use kata_rust_agent.Base.{ℕ, ◌+◌, ◌^◌, false, [], ◌∷◌, ◌≡◌, arith}
use kata_rust_agent.Oci.{LinuxIdMapping}
use kata_rust_agent.Rustjail.Validator.{has_idmapping}

-- A range that ends with the last `u32` covers no id: the sum wraps around to 0.
pub has_idmapping-wraps :
    (m : LinuxIdMapping) (id : ℕ)
    → m.container_id + m.size ≡ 2 ^ 32
    → has_idmapping (m ∷ []) id ≡ false
unfolding has_idmapping
has_idmapping-wraps m id e = rw e (ground arith)
