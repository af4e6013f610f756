-- ===== src/Errors.antt =====
-- The errors of the package: session.go, stream.go, flow.go, and those of the standard library that
-- the code tells apart. `none` in a result `Option Error` is Go's nil error.
use webtransport_h2_go.Prelude.{
  ℕ, List, Bool, true, false, Option, none, some, ◌&&◌, codes, contains, ◌≡◌, refl, ◌⊎◌, inl, inr,
}

-- What `ErrSendLimit` was wrapped with.
pub data SendLimit : Type 0 where
  session_data stream_data uni_streams bidi_streams : SendLimit

-- The reasons of a `FlowControlError`, with the numbers that the message prints.
pub data FlowReason : Type 0 where
  max_data_below : ℕ → ℕ → FlowReason
  max_stream_data_below : ℕ → ℕ → ℕ → FlowReason
  max_streams_exceeds : ℕ → FlowReason
  max_streams_below : ℕ → ℕ → FlowReason

pub data Error : Type 0 where
  eof unexpected_eof closed_pipe : Error
  context_done : Error
  session_closed : Error
  send_limit : SendLimit → Error
  flow_control : FlowReason → Error
  -- `SessionCloseError`: code, message, and whether the peer sent it
  application : ℕ → List ℕ → Bool → Error
  stream_receive_buffer_full : Error
  negative_padding : Error
  close_message_too_long : Error
  close_payload_too_short : Error
  -- an error from outside the package, by its text
  other : List ℕ → Error

pub data Result {ℓ} (A : Type ℓ) : Type ℓ where
  ok : A → Result A
  err : Error → Result A

infixl 5 ◌>>=◌
abbrev pub ◌>>=◌ {ℓ κ} : {A : Type ℓ} {B : Type κ} → Result A → (A → Result B) → Result B
ok a >>= f = f a
err e >>= f = err e

pub Result-cases {ℓ} :
    {A : Type ℓ} (r : Result A) → ((a : A) × (r ≡ ok a)) ⊎ ((e : Error) × (r ≡ err e))
Result-cases (ok a) = inl (a, refl)
Result-cases (err e) = inr (e, refl)

-- A peer FIN, or an HTTP/2 RST_STREAM with NO_ERROR, known by its text.
unfoldable pub is_clean_connect_teardown : Error → Bool
is_clean_connect_teardown eof = true
is_clean_connect_teardown unexpected_eof = true
is_clean_connect_teardown (other msg) =
    contains (codes "NO_ERROR") msg && contains (codes "stream error:") msg
is_clean_connect_teardown _ = false

-- `errors.As(err, &fc)`
unfoldable pub flow_control_error : Error → Option FlowReason
flow_control_error (flow_control r) = some r
flow_control_error _ = none
