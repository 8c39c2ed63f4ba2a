-- ===== src/Tests/Outcome.antt =====
-- The submission of a manual review, to a Java service that applies it.
use ecommerce_after_sales_sy.Prelude.{◌≡◌, ◌∷◌}
use ecommerce_after_sales_sy.FormalReview.Graph.State.{manual_review_required, submit_ai_review}
use ecommerce_after_sales_sy.FormalReview.Graph.Submit.{verdict_arguments, submit_verdict}
use ecommerce_after_sales_sy.FormalReview.Graph.Outcome.{Follows, submission-Follows}
use ecommerce_after_sales_sy.Tests.Demo.{demo, env, cfg}
use ecommerce_after_sales_sy.Tests.Review.{begun}

submission-Follows_example :
    ((submit_verdict env cfg begun manual_review_required).calls
      ≡ submit_ai_review (verdict_arguments env cfg begun.state manual_review_required)
        ∷ begun.calls)
    × Follows env cfg
        (env.call begun.calls
          (submit_ai_review (verdict_arguments env cfg begun.state manual_review_required)))
        manual_review_required
        (submit_verdict env cfg begun manual_review_required).state
submission-Follows_example = submission-Follows env cfg begun manual_review_required
