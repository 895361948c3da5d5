-- ===== src/Common/Cores.antt =====
-- Which cores a program can be bound to.
use nesquic.Common.{get_core_id}
use nesquic.Prelude.{
  List, ℕ, some, ◌≡◌, ok, get_elem?, length, ◌<◌, arith, ◌≤◌, err, Bool-cases, leb, inl, refl,
  leb→le, inr, le→leb, get_elem?-below,
}

-- Below the number of cores the core at the index is found, and from there on there is an error: no
-- index makes it panic.
pub get_core_id-bounds :
    {CoreId : Type 0} (cores : List CoreId) (idx : ℕ)
    → (idx < length cores
        → (core : CoreId) × (get_elem? cores idx ≡ some core)
          × (get_core_id (some cores) idx ≡ ok core))
      × (length cores ≤ idx → get_core_id (some cores) idx ≡ err "Core not available")
unfolding get_core_id
get_core_id-bounds cores idx = (
  λ below.
      let (core, found) = get_elem?-below cores idx below in
      (
        core,
        found,
        elim (Bool-cases (leb (length cores) idx)) [
          | inl beyond ↦ absurd (omega (arith, leb→le (length cores) idx beyond))
          | inr inside ↦ rw (inside, found) refl
        ],
      ),
  λ beyond. rw (le→leb (length cores) idx beyond) refl,
)
