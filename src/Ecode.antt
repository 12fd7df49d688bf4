-- ===== src/Ecode.antt =====
-- ecode/ecode.go: error values. A `VEI` is an interface value: nil, or a pointer to a `verr`, which
-- may itself be nil. The codes that parse_code.sh generates are not here.
use Prim.Native.String.{String}
use vlgo.Shared.{ℕ, ◌≡◌, ◌⊎◌, inl, inr, refl, Option, none, some}

-- `verr`.
pub record Verr : Type 0 where
  pub c : ℕ
  pub s : String

pub data Vei : Type 0 where
  nil_vei : Vei
  verr : Option Verr → Vei

abbrev pub new_verror : String → ℕ → Option Verr
new_verror s code = some (record { c = code; s = s })

-- `(*verr).Error`, on a receiver that may be nil.
unfoldable pub error : Option Verr → String
error (some e) = e.s
error none = "<nil>"

-- `(*verr).String`.
unfoldable pub string : Option Verr → String
unfolding error
string e = error e

-- An `error` of another package: its method `Error` is a parameter.
module _ {E : Type 0} (text_of : E → String) where
  unfoldable pub custom_third_plugin_err : Option E → Vei
  custom_third_plugin_err none = nil_vei
  custom_third_plugin_err (some e) = verr (new_verror (text_of e) 100001)

  -- A foreign error keeps its text under the code 100001 whichever of the two methods prints it, and
  -- no error stays the nil interface.
  pub custom_third_plugin_err_lem :
      (o : Option E)
      → ((o ≡ none) × (custom_third_plugin_err o ≡ nil_vei))
        ⊎ ((e : E) × (v : Verr) × (o ≡ some e)
            × (custom_third_plugin_err o ≡ verr (some v))
            × (error (some v) ≡ text_of e)
            × (string (some v) ≡ text_of e)
            × (v.c ≡ 100001))
  unfolding custom_third_plugin_err string
  custom_third_plugin_err_lem none = inl (refl, refl)
  custom_third_plugin_err_lem (some e) =
      inr (e, record { c = 100001; s = text_of e }, refl, refl, refl, refl, refl)
