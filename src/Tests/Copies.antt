-- ===== src/Tests/Copies.antt =====
-- Copies between the buffer page of the small machine and its user page.
use my_os_proj.Base.{ℕ, ◌+◌, ◌<◌, ◌≡◌, ◌∙◌, ap, inl, inr, refl, arith, true}
use my_os_proj.Kernel.{Kernel, ok}
use my_os_proj.Copy.{copyout, copyin}
use my_os_proj.Copy.Out.{copyout-CopiedOut}
use my_os_proj.Copy.OutStep.{CopiedOut}
use my_os_proj.Copy.In.{copyin-CopiedIn}
use my_os_proj.Copy.InStep.{CopiedIn, KernelBuffer}
use my_os_proj.Copy.Roundtrip.{copyin-copyout}
use my_os_proj.Tests.Machine.{small, machine, roles, root_page, free_pages, machine-Inv}
use my_os_proj.Tests.Paging.{machine_translate, machine-UserSpace}

abbrev buffer_page : ℕ
buffer_page = 0x8000_8000

machine-KernelBuffer : KernelBuffer small roles machine.mem root_page buffer_page 0x8000_8ff0 4
machine-KernelBuffer = record {
  in_use = refl;
  frame = record { aligned = refl; above = omega arith; below = omega arith };
  apart = λ va h. let t = machine_translate va in ground arith;
  lower = omega arith;
  upper = omega arith;
}

copyin-CopiedIn_example :
    CopiedIn small roles free_pages machine root_page 0x8000_8ff0 0x1ffe 4
      (copyin small root_page 0x8000_8ff0 0x1ffe 4 machine)
copyin-CopiedIn_example =
    copyin-CopiedIn root_page buffer_page 0x8000_8ff0 0x1ffe 4 roles free_pages machine machine-Inv
      refl machine-UserSpace machine-KernelBuffer

-- Four bytes of the page below the last ones, sent to the user page.
abbrev sent :
    CopiedOut small roles free_pages machine root_page 0x1ff0 0x8000_1000 4
      (copyout small root_page 0x1ff0 0x8000_1000 4 machine)
sent =
    copyout-CopiedOut root_page 0x1ff0 0x8000_1000 4 roles free_pages machine machine-Inv refl
      machine-UserSpace (λ i va h there. let t = machine_translate va in ground arith)

all_sent : copyout small root_page 0x1ff0 0x8000_1000 4 machine ≡ ok true sent.after
all_sent =
    sent.run
    ∙ ap (λ d. ok d sent.after)
        (elim sent.ending [
          | inl (done, _) ↦ done
          | inr (_, part, missing) ↦
              let t = machine_translate (0x1ff0 + sent.n) in absurd (ground arith)
        ])

copyin-copyout_example :
    (k2 : Kernel) × ((copyin small root_page 0x8000_8ff0 0x1ff0 4 sent.after ≡ ok true k2)
      × ((i : ℕ) → i < 4 → k2.mem (0x8000_8ff0 + i) ≡ machine.mem (0x8000_1000 + i)))
copyin-copyout_example =
    copyin-copyout small roles free_pages machine sent.after root_page buffer_page 0x8000_8ff0
      0x8000_1000 0x1ff0 4 machine-Inv refl machine-UserSpace
      (λ i va h there. let t = machine_translate va in ground arith) machine-KernelBuffer all_sent
