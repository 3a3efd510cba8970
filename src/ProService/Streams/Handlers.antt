-- ===== src/ProService/Streams/Handlers.antt =====
-- The goroutines that Serve of wsl-pro-service/internal/streams/server.go leaves.
use ubuntu_pro_for_wsl.Prelude.{
  ℕ, ◌≡◌, refl, Option, some, Result, ok, err, [], ◌++◌, inl, inr, Option-cases, List, ◌∷◌,
}
use ubuntu_pro_for_wsl.ProService.Streams.{
  Preface, ServeError, could_not_connect, from_handlers, from_system, could_not_send_first,
  HandlerEnd, end_error, preface_error, joined, serve_streams,
}

-- What is left by the result.
abbrev pub Leaves : {E : Type 0} → ℕ × Result (ServeError E) (Unit {0}) → Type 0
Leaves (n, ok _) = n ≡ 0
Leaves (n, err (could_not_connect e)) = n ≡ 0
Leaves (n, err (from_handlers es)) = n ≡ 0
Leaves (n, err (from_system e)) = n ≡ 2
Leaves (n, err (could_not_send_first e)) = n ≡ 2

preface_error-Leaves :
    {E : Type 0} (p : Preface E) (e : ServeError E) → preface_error p ≡ some e → Leaves (2, err e)
unfolding preface_error
preface_error-Leaves {E} p e h = elim (Option-cases p.info_error) [
  | inr (x, i) ↦ of (from_system x) refl (cc (h, i))
  | inl i ↦ elim (Option-cases p.send_error) [
    | inr (x, s) ↦ of (could_not_send_first x) refl (cc (h, i, s))
    | inl s ↦ elim (Option-cases p.pro_error) [
      | inr (x, q) ↦ of (could_not_send_first x) refl (cc (h, i, s, q))
      | inl q ↦ elim (Option-cases p.landscape_error) [
        | inr (x, l) ↦ of (could_not_send_first x) refl (cc (h, i, s, q, l))
        | inl l ↦ absurd (cc (h, i, s, q, l))
      ]
    ]
  ]
]
  where
    of : (x : ServeError E) → Leaves (2, err x) → x ≡ e → Leaves (2, err e)
    of x k same = rw⁻¹ same k

of_handlers : {E : Type 0} (es : List E) → Leaves (0, joined es)
unfolding joined
of_handlers [] = refl
of_handlers (e ∷ es) = refl

-- Serve leaves no goroutine of a handler when it returns without an error, or with one of connecting or
-- of the handlers. After an error of the preface both are left, blocked on their channel.
pub serve_streams-Leaves :
    {E : Type 0} (connect_error : Option E) (p : Preface E) (pro landscape : HandlerEnd E)
    → Leaves (serve_streams connect_error p pro landscape)
unfolding serve_streams
serve_streams-Leaves connect_error p pro landscape = elim (Option-cases connect_error) [
  | inr (e, c) ↦ rw c refl
  | inl c ↦ elim (Option-cases (preface_error p)) [
    | inr (e, q) ↦ rw c (rw (q, serve_streams) (preface_error-Leaves p e q))
    | inl q ↦ rw c (rw (q, serve_streams) (of_handlers (end_error pro ++ end_error landscape)))
  ]
]
