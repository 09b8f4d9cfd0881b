-- ===== src/Frames/Heartbeat.antt =====
-- heartbeatPong echoes the server's ping.
use tradingview_go.Frames.RoundTrip.{frame-append}
use mathlib.Core.Option
use tradingview_go.Common.{
  take, drop, suc, ◌+◌, ◌≡◌, ◌≢◌, refl, sym, ap, ◌∙◌, none, some, [], ◌∷◌, ◌++◌, arith, length, All,
  ◌⊎◌, inl, inr, take-append, drop-append, drop-add, append-nil,
}
use tradingview_go.Text.{Bytes, codes, index_of, has_prefix}
use tradingview_go.Text.Decimal.{format_nat-ne-nil, format_nat, IsDigit, format_nat-IsDigit}
use tradingview_go.Frames.{marker, tag, frame, heartbeat_pong}

-- No tag begins in a frame before its body.
index_of-tag :
    (ds rest : Bytes)
    → All IsDigit ds
    → index_of tag (ds ++ (marker ++ (tag ++ rest))) ≡ some (length ds + 3)
unfolding index_of
index_of-tag [] rest h = refl
index_of-tag (c ∷ ds) rest h = ground (arith, index_of-tag ds rest h.1)

-- Behind the digits of a ping the message ends, or the next frame begins.
abbrev pub Behind : Bytes → Type 0
Behind rest = (rest ≡ []) ⊎ ((t : Bytes) × (rest ≡ b'~' ∷ t))

no_tilde : (ds : Bytes) → All IsDigit ds → index_of (codes "~") ds ≡ none
unfolding index_of has_prefix
no_tilde [] h = refl
no_tilde (c ∷ ds) h = ground (arith, no_tilde ds h.1)

at_tilde :
    (ds t : Bytes) → All IsDigit ds → index_of (codes "~") (ds ++ b'~' ∷ t) ≡ some (length ds)
unfolding index_of has_prefix
at_tilde [] t h = refl
at_tilde (c ∷ ds) t h = ground (arith, at_tilde ds t h.1)

ping_end :
    (ds rest : Bytes)
    → All IsDigit ds
    → Behind rest
    → take (Option.get_or (index_of (codes "~") (ds ++ rest)) (length (ds ++ rest))) (ds ++ rest)
      ≡ ds
ping_end ds rest h (inl e) =
    rw (e, append-nil ds, no_tilde ds h)
      (ap (take (length ds)) (sym (append-nil ds)) ∙ take-append ds [])
ping_end ds rest h (inr (t, e)) = rw (e, at_tilde ds t h) (take-append ds (b'~' ∷ t))

-- The first tag of a frame whose body begins with one.
index_of-frame :
    (ds rest : Bytes)
    → All IsDigit ds
    → ds ≢ []
    → index_of tag (marker ++ (ds ++ (marker ++ (tag ++ rest)))) ≡ some (3 + (length ds + 3))
unfolding index_of
index_of-frame [] rest h ne = absurd (ne refl)
index_of-frame (c ∷ ds) rest h ne = ground (arith, index_of-tag (c ∷ ds) rest h)

drop-frame :
    (ds rest : Bytes)
    → drop (3 + (length ds + 3) + 3) (marker ++ (ds ++ (marker ++ (tag ++ rest)))) ≡ rest
drop-frame ds rest =
    let e : 3 + (length ds + 3) + 3 ≡ suc (suc (suc (length ds + 6))) = omega arith in
    rw (e, drop-add (length ds) 6, drop-append)

-- The answer to a ping `~h~<digits>`, at the front of a message that may hold more frames, is that
-- ping's own frame.
pub heartbeat_pong-frame :
    (ds rest : Bytes)
    → All IsDigit ds
    → Behind rest
    → heartbeat_pong (frame (tag ++ ds) ++ rest) ≡ some (frame (tag ++ ds))
unfolding heartbeat_pong
heartbeat_pong-frame ds rest h b =
    let n = format_nat (length (tag ++ ds)) in
    rw
      (
        frame-append (tag ++ ds) rest,
        index_of-frame n (ds ++ rest) (format_nat-IsDigit (length (tag ++ ds)))
            (format_nat-ne-nil (length (tag ++ ds))),
      )
      (rw (drop-frame n (ds ++ rest), ping_end ds rest h b))
