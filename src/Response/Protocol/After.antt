-- ===== src/Response/Protocol/After.antt =====
-- Nothing is sent once the message has ended.
use kiro_trust.Prelude.{
  if_true, ◌≡◌, refl, ap, ◌∙◌, Bool, Bool-cases, true, ◌||◌, inl, inr, List, [], ◌∷◌, arith,
}
use kiro_trust.Kiro.{Event}
use kiro_trust.Response.Emitter.{Events, ◌>>◌}
use kiro_trust.Response.State.{ResponseTranslator, ResponseOptions, new}
use kiro_trust.Response.Push.{finish, push, push_all, failed}
use kiro_trust.Response.Protocol.Blocks.{IsValid}
use kiro_trust.Response.Protocol.Stream.{Ends-finish}
use kiro_trust.Response.Protocol.Upstream.{Steps-push_all, finish_done, IsValid-new}

or_left : (a b : Bool) → a ≡ true → (a || b) ≡ true
or_left a b e = ground arith

module _ (F V : Type 0) where
  push_done : (ev : Event F) (t : ResponseTranslator) → t.finished ≡ true → push F V ev t ≡ (t, [])
  unfolding push
  push_done ev t e = if_true (t.finished || failed F V t) _ _ (or_left t.finished (failed F V t) e)

  push_all_done :
      (evs : List (Event F)) (t : ResponseTranslator)
      → t.finished ≡ true
      → push_all F V evs t ≡ (t, [])
  unfolding push_all
  push_all_done [] t e = refl
  push_all_done (ev ∷ evs) t e = let p = push_done ev t e in rw p (rw (push_all_done evs t e) refl)

  finish-finished : (t : ResponseTranslator) → IsValid t.emitter → (finish F V t).0.finished ≡ true
  finish-finished t v = elim (Bool-cases t.finished) [
    | inl done ↦
        ap (λ (r : ResponseTranslator × Events V). r.0.finished) (finish_done F V t done) ∙ done
    | inr open_ ↦ (Ends-finish F V t v open_).finished
  ]

  -- After `finish`, whatever events still come, and if `finish` is called again: nothing is sent
  -- and the translator stays as it is.
  pub after_finish :
      (opts : ResponseOptions) (evs more : List (Event F))
      → (push_all F V more >> finish F V) ((push_all F V evs >> finish F V) (new opts)).0
        ≡ (((push_all F V evs >> finish F V) (new opts)).0, [])
  after_finish opts evs more =
      let t = (push_all F V evs (new opts)).0 in
      let v = (Steps-push_all F V evs (new opts) (IsValid-new F V opts)).valid in
      let done = finish-finished t v in
      let r = (finish F V t).0 in
      let p = push_all_done more r done in rw p (rw (finish_done F V r done) refl)
