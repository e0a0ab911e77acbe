-- ===== src/Api/Guarded.antt =====
-- The guard of changes stands before every call that changes something: `request` of
-- web/static/js/api.js.
use wiredraft.Prelude.{
  Bool, true, false, [], ◌∷◌, none, some, ◌≡◌, ◌⊎◌, string_eq, if◌then◌else◌, In, to_upper, Result,
  ok, err,
}
use wiredraft.Api.{Call, Reply, Answer, replied, refused, Failure, Sent, Effects}

-- The methods that only read.
abbrev pub Reads : Call → Type 0
Reads call = In (to_upper call.method) ("GET" ∷ "HEAD" ∷ "OPTIONS" ∷ [])

module _ {Thrown : Type 0} where
  -- Nothing was sent, or the call was, once, and then it only reads or the guard let it through. A
  -- call that the guard refuses fails with what the guard threw.
  abbrev pub IsAsked : (Call → Result Thrown Bool) → Call → Effects Thrown → Type 0
  IsAsked guard call done =
      ((s : Sent) × (done.sent ≡ some s)
        × (s.call ≡ call)
        × (Reads call ⊎ ((watched : Bool) × (guard call ≡ ok watched))))
      ⊎ ((thrown : Thrown) × (guard call ≡ err thrown)
          × (done.sent ≡ none)
          × (done.result ≡ err (refused thrown)))

  -- A call fails, and no callback is called; or the reply was good, the call returns its body, and
  -- the callback that the guard gave, if any, was called with that body.
  abbrev pub IsAnswered : (Call → Result Thrown Bool) → Call → Answer → Effects Thrown → Type 0
  IsAnswered guard call answer done =
      ((failure : Failure Thrown) × (done.result ≡ err failure) × (done.acknowledged ≡ none))
      ⊎ ((reply : Reply) × (answer ≡ replied reply)
          × (reply.ok ≡ true)
          × (done.result ≡ ok reply.body)
          × (((guard call ≡ ok true) × (done.acknowledged ≡ some reply.body))
              ⊎ ((Reads call ⊎ (guard call ≡ ok false)) × (done.acknowledged ≡ none))))

  -- What the end of `request` makes of an answer.
  abbrev Handles : Bool → Answer → Effects Thrown → Type 0
  Handles watched answer done =
      ((failure : Failure Thrown) × (done.result ≡ err failure) × (done.acknowledged ≡ none))
      ⊎ ((reply : Reply) × (answer ≡ replied reply)
          × (reply.ok ≡ true)
          × (done.result ≡ ok reply.body)
          × (done.acknowledged ≡ (if watched then some reply.body else none)))
