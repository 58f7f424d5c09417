-- ===== src/Connection/Quiet.antt =====
-- The calls that leave the server behind a connection as it was.
use ram_link.Base.{ℕ, ◌≡◌, refl, ◌∙◌, ap, sym, subst, length, Bytes, Result, ok, err, stuck}
use ram_link.Exec.{Exec, bind_result, ◌>>=◌, ◌>>◌, lift}
use ram_link.Exec.Triple.{Ends}
use ram_link.Wire.{Chunks, recv_all}
use ram_link.Wire.Receive.{recv_all-length}
use ram_link.Wire.Header.{pack_header}
use ram_link.Connection.{Connected, on_server, receive, sendall, send_header}

module _ {S : Type 0} where
  -- What is received has the length that was asked for, and the server is as it was.
  pub receive-Ends :
      (n : ℕ) (s : Connected S)
      → Ends
          (λ bs s'. (length bs ≡ n) × (s'.server ≡ s.server))
          (λ s'. s'.server ≡ s.server)
          (receive n s)
  unfolding receive
  receive-Ends n s = go (recv_all n s.conn.input) refl
    where
      go :
          (r : Result Bytes × Chunks)
          → recv_all n s.conn.input ≡ r
          → Ends
              (λ bs s'. (length bs ≡ n) × (s'.server ≡ s.server))
              (λ s'. s'.server ≡ s.server)
              (r.0, record s { conn = record { input = r.1; output = s.conn.output } })
      go (ok bs, input) e = (recv_all-length n s.conn.input (ap (λ r. r.0) e), refl)
      go (err x, input) e = refl
      go (stuck, input) e = refl

  -- A call that leaves the server as it was.
  abbrev pub IsQuiet : {A : Type 0} → Exec (Connected S) A → Type 0
  IsQuiet m = (s : Connected S) → (m s).1.server ≡ s.server

  pub >>=-IsQuiet :
      {A B : Type 0} (m : Exec (Connected S) A) (f : A → Exec (Connected S) B)
      → IsQuiet m
      → ((a : A) → IsQuiet (f a))
      → IsQuiet (m >>= f)
  >>=-IsQuiet {A} {B} m f h k s = go (m s) (h s)
    where
      go :
          (r : Result A × Connected S)
          → r.1.server ≡ s.server
          → (bind_result r f).1.server ≡ s.server
      go (ok a, s') e = k a s' ∙ e
      go (err x, s') e = e
      go (stuck, s') e = e

  pub sendall-IsQuiet : (bs : Bytes) → IsQuiet (sendall bs)
  unfolding sendall
  sendall-IsQuiet bs s = refl

  pub receive-IsQuiet : (n : ℕ) → IsQuiet (receive n)
  unfolding receive
  receive-IsQuiet n s = refl

  pub send_header-IsQuiet : (op offset size : ℕ) → IsQuiet (send_header op offset size)
  unfolding send_header
  send_header-IsQuiet op offset size =
      >>=-IsQuiet (lift (pack_header op offset size)) sendall (λ s. refl) sendall-IsQuiet

  -- A header and the bytes behind it.
  pub reply-IsQuiet :
      (op offset size : ℕ) (bs : Bytes) → IsQuiet (send_header op offset size >> sendall bs)
  reply-IsQuiet op offset size bs =
      >>=-IsQuiet (send_header op offset size) (λ _. sendall bs)
        (send_header-IsQuiet op offset size) (λ _. sendall-IsQuiet bs)

  -- A step on the server with a known outcome, and what follows it.
  pub on_server-Ends :
      {A B : Type 0} (g : S → Result A × S) (f : A → Exec (Connected S) B)
      (R : B → Connected S → Type 0) (E : Connected S → Type 0) (s : Connected S) (r : Result A × S)
      → g s.server ≡ r
      → Ends R E (bind_result (r.0, record s { server = r.1 }) f)
      → Ends R E ((on_server g >>= f) s)
  on_server-Ends g f R E s r e h =
      subst (λ x. Ends R E (bind_result (x.0, record s { server = x.1 }) f)) (sym e) h
