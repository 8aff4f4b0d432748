-- ===== src/Uout/Writer/Tests.antt =====
-- Concrete runs of the writers of uout/so_target_desc.cc, with a write(2) that takes everything.
use components_mcu.Prelude.{
  aborted, returns, ◌<◌, ◌≤◌, ℕ, some, [], ◌∷◌, ◌++◌, Bytes, length, ◌≡◌, refl,
}
use components_mcu.Uout.Writer.{Fd, Written, priv_write}
use components_mcu.Uout.Writer.Sending.{sent_of, priv_write-Sends}

abbrev os_write : ℕ → Bytes → ℕ
os_write n b = length b

abbrev fresh : Fd
fresh = record { sent = []; calls = 0 }

abbrev cut_line : Bytes
cut_line = 97 ∷ b'\n' ∷ 98 ∷ b'\r' ∷ []

-- A text with "\r\n" is sent with "\r\r\n".
doubled :
    priv_write os_write 4096 (97 ∷ b'\r' ∷ b'\n' ∷ []) fresh
    ≡ returns (record {
      result = some 3;
      fd = record { sent = 97 ∷ b'\r' ∷ b'\r' ∷ b'\n' ∷ []; calls = 2 };
    })
unfolding priv_write
doubled = refl

priv_write-Sends_example :
    (length cut_line < 2046
      → (w : Written) × (priv_write os_write 2046 cut_line fresh ≡ returns w)
        × (w.result ≡ some (length cut_line))
        × (w.fd.sent ≡ fresh.sent ++ sent_of cut_line))
    × (2046 ≤ length cut_line → priv_write os_write 2046 cut_line fresh ≡ aborted)
priv_write-Sends_example = priv_write-Sends os_write (λ n b. refl) 2046 cut_line fresh
