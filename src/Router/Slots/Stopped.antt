-- ===== src/Router/Slots/Stopped.antt =====
-- A stopping router of src/router.rs.
use cpa_stg.Base.{true≢false, true, ◌≡◌, sym, ◌∙◌, inl, inr}
use cpa_stg.Router.Execute.{Settlement}
use cpa_stg.Router.{Router}
use cpa_stg.Router.Slots.{threads, Fate}

pub settled-Stopped :
    (r : Router) (s : Settlement)
    → Fate r s
    → r.stopping ≡ true
    → (s.router.stopping ≡ true) × (threads s.started ≡ 0)
unfolding Fate
settled-Stopped r s (_, same, inl (nothing, _)) halted = (same ∙ halted, nothing)
settled-Stopped r s (_, same, inr (_, _, goes)) halted = true≢false (sym halted ∙ goes)
