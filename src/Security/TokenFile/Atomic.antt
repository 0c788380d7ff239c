-- ===== src/Security/TokenFile/Atomic.antt =====
-- What `save_atomic_token_file` of src/pinterest_mcp/security.py leaves on the disk, also when it is cut off.
use pinterest_mcp_docker.Common.{
  ℕ, suc, ◌+◌, length, codes, ◌≡◌, ◌≢◌, ◌⊎◌, inl, inr, refl, sym, ap, ◌∙◌, String, Bool, true,
  false, Option, none, some, List, [], ◌∷◌, ◌++◌, ==_self, All, All-append, append_assoc,
  append-nil, string_eq, arith, Bool-cases,
}
use Prim.Native.String.{char_at}
use mathlib.Core.Path.{subst}
use pinterest_mcp_docker.Persistence.Encryption.Base64.{add_text}
use pinterest_mcp_docker.Security.TokenFile.{
  File, Files, Io, set, opened, append, write, writes, written, replace, Run, untouched, ended,
  fill, save_atomic_token_file, tmp_path,
}

abbrev concat : List (List ℕ) → List ℕ
concat [] = []
concat (c ∷ cs) = c ++ concat cs

set-other : (path p : String) (f : Option File) (fs : Files) → p ≢ path → set path f fs p ≡ fs p
set-other path p f fs apart = ground arith

set_same : (path : String) (f : Option File) (fs : Files) → set path f fs path ≡ f
set_same path f fs = rw (==_self {A = String} path) refl

-- The file in its place stays as it is while the temporary file is written.
Keeps : String → Files → Files → Type 0
Keeps token fs s = s token ≡ fs token

module _ (token tmp : String) (apart : token ≢ tmp) where
  writes-keep :
      (cs : List (List ℕ)) (fs s : Files)
      → s token ≡ fs token
      → All (λ u. u token ≡ fs token) (writes tmp cs s)
  unfolding writes
  writes-keep [] fs s h = tt
  writes-keep (c ∷ cs) fs s h =
      let step = set-other tmp token (append c (s tmp)) s apart ∙ h in
      (step, writes-keep cs fs (write tmp c s) step)

  written-keep : (cs : List (List ℕ)) (s : Files) → written tmp cs s token ≡ s token
  unfolding written
  written-keep [] s = refl
  written-keep (c ∷ cs) s =
      written-keep cs (write tmp c s) ∙ set-other tmp token (append c (s tmp)) s apart

-- What has been written to the temporary file at the end.
written-concat :
    (tmp : String) (cs : List (List ℕ)) (s : Files) (f : File)
    → s tmp ≡ some f
    → written tmp cs s tmp ≡ some (record { content = f.content ++ concat cs; mode = f.mode })
unfolding written
written-concat tmp [] s f h =
    h ∙ ap (λ c. some (record { content = c; mode = f.mode })) (sym (append-nil f.content))
written-concat tmp (c ∷ cs) s f h =
    written-concat tmp cs (write tmp c s) (record { content = f.content ++ c; mode = f.mode })
      (set_same tmp (append c (s tmp)) s ∙ ap (append c) h)
    ∙ ap (λ t. some (record { content = t; mode = f.mode })) (append_assoc f.content c (concat cs))

add_text-length :
    (s t : String) → length (codes (add_text s t)) ≡ length (codes s) + length (codes t)
unfolding add_text
add_text-length String.[] t = omega arith
add_text-length (String.◌∷◌ c s) t = ground (arith, add_text-length s t)

-- The temporary file is another file.
tmp_path-other : (parent name pid : String) → add_text parent name ≢ tmp_path parent name pid
unfolding tmp_path
tmp_path-other parent name pid same =
    let dotted = add_text name (add_text ".tmp." pid) in
    let l = add_text-length parent name in
    let m = add_text-length parent (String.◌∷◌ (char_at "." 0) dotted) in
    let n = add_text-length name (add_text ".tmp." pid) in
    let e : length (codes (add_text parent name))
        ≡ length (codes (add_text parent (String.◌∷◌ (char_at "." 0) dotted))) =
      ap (λ s. length (codes s)) same in
    let one_more : length (codes (String.◌∷◌ (char_at "." 0) dotted))
        ≡ suc (length (codes dotted)) =
      refl in
    omega arith

abbrev whole : Io → String → Files → File
whole io tmp fs = record { content = concat io.chunks; mode = (opened (fs tmp)).mode }

-- The ends of a run: the new file is in place and no temporary one is left; nothing was begun;
-- writing failed, and the temporary file is gone, or stays since it could not be removed; or
-- replacing failed, and it stays.
abbrev pub Ended : Io → String → String → Files → Run → Type 0
Ended io token tmp fs run =
    ((run.returned ≡ true) × (run.final token ≡ some (whole io tmp fs)) × (run.final tmp ≡ none))
    ⊎ ((run.returned ≡ false) × (run.final ≡ fs))
    ⊎ ((run.returned ≡ false)
        × (io.fails ≡ true)
        × (io.unlinks ≡ true)
        × (run.final token ≡ fs token)
        × (run.final tmp ≡ none))
    ⊎ ((run.returned ≡ false)
        × (io.fails ≡ true)
        × (io.unlinks ≡ false)
        × (run.final token ≡ fs token)
        × (run.final tmp ≡ some (whole io tmp fs)))
    ⊎ ((run.returned ≡ false)
        × (io.replaces ≡ false)
        × (run.final token ≡ fs token)
        × (run.final tmp ≡ some (whole io tmp fs)))

opened-empty : (o : Option File) → (opened o).content ≡ []
opened-empty none = refl
opened-empty (some f) = refl

All-map :
    (P Q : Files → Type 0) → ((s : Files) → P s → Q s) → (ss : List Files) → All P ss → All Q ss
All-map P Q f [] h = tt
All-map P Q f (s ∷ ss) (h, hs) = (f s h, All-map P Q f ss hs)

-- The disk at a step: the old file or the whole new one is in place.
abbrev pub IsOldOrNew : Io → String → String → Files → Files → Type 0
IsOldOrNew io token tmp fs s = (s token ≡ fs token) ⊎ (s token ≡ some (whole io tmp fs))

module _ (io : Io) (token tmp : String) (apart : token ≢ tmp) (fs : Files) where
  abbrev begun : Files
  begun = set tmp (some (opened (fs tmp))) fs

  abbrev full : Files
  full = written tmp io.chunks begun

  begun-token : begun token ≡ fs token
  begun-token = set-other tmp token (some (opened (fs tmp))) fs apart

  full-token : full token ≡ fs token
  full-token = written-keep token tmp apart io.chunks begun ∙ begun-token

  full-tmp : full tmp ≡ some (whole io tmp fs)
  full-tmp =
      written-concat tmp io.chunks begun (opened (fs tmp))
        (set_same tmp (some (opened (fs tmp))) fs)
      ∙ ap (λ c. some (record { content = c ++ concat io.chunks; mode = (opened (fs tmp)).mode }))
          (opened-empty (fs tmp))

  replaced-token : replace tmp token full token ≡ some (whole io tmp fs)
  replaced-token =
      set-other tmp token none (set token (full tmp) full) apart
      ∙ set_same token (full tmp) full
      ∙ full-tmp

  old : (s : Files) → s token ≡ fs token → IsOldOrNew io token tmp fs s
  old s h = inl h

  steps-old : All (IsOldOrNew io token tmp fs) (begun ∷ writes tmp io.chunks begun)
  steps-old =
      All-map (λ s. s token ≡ fs token) (IsOldOrNew io token tmp fs) old
        (begun ∷ writes tmp io.chunks begun)
        (begun-token, writes-keep token tmp apart io.chunks fs begun begun-token)

  ended-old :
      (final : Files) (returned : Bool)
      → IsOldOrNew io token tmp fs final
      → All
          (IsOldOrNew io token tmp fs)
          (ended (begun ∷ writes tmp io.chunks begun) final returned).states
  ended-old final returned h =
      All-append (IsOldOrNew io token tmp fs) (begun ∷ writes tmp io.chunks begun) (final ∷ [])
        steps-old (h, tt)

  abbrev IsSafeRun : Run → Type 0
  IsSafeRun run = All (IsOldOrNew io token tmp fs) run.states × Ended io token tmp fs run

  fill-IsSafeRun : IsSafeRun (fill io token tmp begun)
  fill-IsSafeRun = elim (Bool-cases io.fails) [
    | inl fails ↦ elim (Bool-cases io.unlinks) [
      | inl unlinks ↦
          let kept = set-other tmp token none full apart ∙ full-token in
          let run : fill io token tmp begun
              ≡ ended (begun ∷ writes tmp io.chunks begun) (set tmp none full) false =
            cc (fails, unlinks) in
          subst IsSafeRun (sym run) (
            ended-old (set tmp none full) false (inl kept),
            inr (inr (inl (refl, fails, unlinks, kept, set_same tmp none full))),
          )
      | inr left ↦
          let run : fill io token tmp begun
              ≡ ended (begun ∷ writes tmp io.chunks begun) full false =
            cc (fails, left) in
          subst IsSafeRun (sym run) (
            ended-old full false (inl full-token),
            inr (inr (inr (inl (refl, fails, left, full-token, full-tmp)))),
          )
    ]
    | inr works ↦ elim (Bool-cases io.replaces) [
      | inl replaces ↦
          let run : fill io token tmp begun
              ≡ ended (begun ∷ writes tmp io.chunks begun) (replace tmp token full) true =
            cc (works, replaces) in
          subst IsSafeRun (sym run) (
            ended-old (replace tmp token full) true (inr replaced-token),
            inl (refl, replaced-token, set_same tmp none (set token (full tmp) full)),
          )
      | inr stays ↦
          let run : fill io token tmp begun
              ≡ ended (begun ∷ writes tmp io.chunks begun) full false =
            cc (works, stays) in
          subst IsSafeRun (sym run) (
            ended-old full false (inl full-token),
            inr (inr (inr (inr (refl, stays, full-token, full-tmp)))),
          )
    ]
  ]

  untouched-IsSafeRun : IsSafeRun (untouched fs)
  untouched-IsSafeRun = (tt, inr (inl (refl, refl)))

  save-IsSafeRun : IsSafeRun (save_atomic_token_file io token tmp fs)
  unfolding save_atomic_token_file
  save-IsSafeRun = elim (Bool-cases io.makes_parent) [
    | inr missing ↦
        (let run : save_atomic_token_file io token tmp fs ≡ untouched fs = cc missing in
          subst IsSafeRun (sym run) untouched-IsSafeRun)
    | inl there ↦ elim (Bool-cases io.opens) [
      | inr shut ↦
          (let run : save_atomic_token_file io token tmp fs ≡ untouched fs = cc (there, shut) in
            subst IsSafeRun (sym run) untouched-IsSafeRun)
      | inl open_ ↦
          (let run : save_atomic_token_file io token tmp fs ≡ fill io token tmp begun =
              cc (there, open_) in
            subst IsSafeRun (sym run) fill-IsSafeRun)
    ]
  ]

-- Whatever fails, and wherever the program is cut off, the token file is the old one or the whole
-- new one. When the function returns, the new file is in place and no temporary one is left; when
-- it raises, the token file is the old one, and no temporary file is left if printing or writing
-- was what failed and the file could be removed; if it was the replacement, the temporary file stays
-- with all the tokens, and if it could not be removed, with what was written.
pub save_atomic_token_file-IsOldOrNew :
    (io : Io) (parent name pid : String) (fs : Files)
    → let token = add_text parent name in
      let tmp = tmp_path parent name pid in
      let run = save_atomic_token_file io token tmp fs in
      All (IsOldOrNew io token tmp fs) run.states × Ended io token tmp fs run
save_atomic_token_file-IsOldOrNew io parent name pid fs =
    save-IsSafeRun io (add_text parent name) (tmp_path parent name pid)
      (tmp_path-other parent name pid) fs
