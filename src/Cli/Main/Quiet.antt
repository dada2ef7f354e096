-- ===== src/Cli/Main/Quiet.antt =====
-- Which runs of tools/rcdiscover.cc leave all devices alone.
use rcdiscover.Base.{
  Bool, true, subst, if-elim, text_eq, codes, ℕ, ◌≡◌, refl, sym, ap, ◌∙◌, inl, inr, ◌⊎◌, List, [],
  ◌∷◌, Option, none, some, Bytes, Bool-cases, Option-cases,
}
use rcdiscover.DeviceInfo.{DeviceInfo}
use rcdiscover.Cli.Collect.{sort, unique}
use rcdiscover.Cli.Table.{print_device_table}
use rcdiscover.Cli.Commands.{Action}
use rcdiscover.Cli.Main.{
  Listing, plain_listing, parse_listing, keep_valid, Ran, list_devices, run_discover, Command, ls,
  reconnect, forceip, reset, find_command, run_command, names_command, is_information, main,
}

-- The names of the commands that touch devices.
data Acts : Option Command → Type 0 where
  by_reconnect : Acts (some reconnect)
  by_forceip : Acts (some forceip)
  by_reset : Acts (some reset)

abbrev asked : Option Ran → List Action
asked none = []
asked (some r) = r.actions

list_devices-asked :
    (responses : List Bytes → List DeviceInfo) (l : Listing ⊎ ℕ)
    → asked (list_devices responses l) ≡ []
unfolding list_devices
list_devices-asked responses (inr n) = refl
list_devices-asked responses (inl l) =
    elim (Option-cases (keep_valid l.filter (unique (sort (responses l.filter.iface))))) [
      | inl e ↦ rw (e) refl
      | inr (infos, e) ↦
          elim (Option-cases (print_device_table infos l.print_header l.ip_only l.serial_only)) [
            | inl f ↦ rw (e, f) refl
            | inr (text, f) ↦ rw (e, f) refl
          ]
    ]

run_ls-asked :
    (responses : List Bytes → List DeviceInfo) (answer : Bytes) (throws : Action → Bool)
    (argv : List Bytes)
    → asked (run_command responses answer throws (some ls) argv) ≡ []
unfolding run_command run_discover
run_ls-asked responses answer throws argv =
    list_devices-asked responses (parse_listing argv plain_listing)

run_command-asked :
    (responses : List Bytes → List DeviceInfo) (answer : Bytes) (throws : Action → Bool)
    (c : Option Command) (argv : List Bytes)
    → (asked (run_command responses answer throws c argv) ≡ []) ⊎ Acts c
unfolding run_command
run_command-asked responses answer throws none argv = inl refl
run_command-asked responses answer throws (some ls) argv =
    inl (run_ls-asked responses answer throws argv)
run_command-asked responses answer throws (some reconnect) argv = inr by_reconnect
run_command-asked responses answer throws (some forceip) argv = inr by_forceip
run_command-asked responses answer throws (some reset) argv = inr by_reset

abbrev first_command : List Bytes → Option Command
first_command [] = none
first_command (p ∷ argv) = find_command p

main-asked :
    (responses : List Bytes → List DeviceInfo) (answer : Bytes) (throws : Action → Bool)
    (argv : List Bytes)
    → (asked (main responses answer throws argv) ≡ []) ⊎ Acts (first_command argv)
unfolding main
main-asked responses answer throws [] = inl (run_ls-asked responses answer throws [])
main-asked responses answer throws (p ∷ argv) = elim (Bool-cases (is_information p)) [
  | inl e ↦ inl (rw (e, main) refl)
  | inr e ↦ elim (Bool-cases (names_command p)) [
    | inl f ↦ rw (e, f, main) (run_command-asked responses answer throws (find_command p) argv)
    | inr f ↦ inl (rw (e, f, main) (run_ls-asked responses answer throws (p ∷ argv)))
  ]
]

-- The words of the commands.
abbrev word : Command → Bytes
word ls = codes "ls"
word reconnect = codes "reconnect"
word forceip = codes "forceip"
word reset = codes "reset"

abbrev word_or : Option Command → Bytes
word_or none = []
word_or (some c) = word c

find_command-word : (p : Bytes) (c : Command) → find_command p ≡ some c → text_eq p (word c) ≡ true
unfolding find_command
find_command-word p c h =
    let P : Option Command → Type 0 = λ o. (d : Command) → o ≡ some d → text_eq p (word d) ≡ true in
    let found = λ (d : Command) (t : text_eq p (word d) ≡ true).
      λ (e : Command) (f : some d ≡ some e). subst (λ x. text_eq p (word_or x) ≡ true) f t in
    if-elim P (text_eq p (codes "ls")) _ _ (found ls)
      (λ _. if-elim P (text_eq p (codes "reconnect")) _ _ (found reconnect) (λ _.
        if-elim P (text_eq p (codes "forceip")) _ _ (found forceip)
          (λ _. if-elim P (text_eq p (codes "reset")) _ _ (found reset) (λ _ e f. cc f))))
      c h

-- The first argument is the word of one of the three commands.
abbrev pub AsksFor : List Bytes → Type 0
AsksFor [] = ⊥
AsksFor (p ∷ argv) =
    (text_eq p (codes "reconnect") ≡ true)
    ⊎ ((text_eq p (codes "forceip") ≡ true) ⊎ (text_eq p (codes "reset") ≡ true))

Acts-AsksFor :
    (p : Bytes) (argv : List Bytes) (o : Option Command)
    → find_command p ≡ o
    → Acts o
    → AsksFor (p ∷ argv)
Acts-AsksFor p argv none e a = elim a [ ]
Acts-AsksFor p argv (some ls) e a = elim a [ ]
Acts-AsksFor p argv (some reconnect) e by_reconnect = inl (find_command-word p reconnect e)
Acts-AsksFor p argv (some forceip) e by_forceip = inr (inl (find_command-word p forceip e))
Acts-AsksFor p argv (some reset) e by_reset = inr (inr (find_command-word p reset e))

first_command-AsksFor : (argv : List Bytes) → Acts (first_command argv) → AsksFor argv
first_command-AsksFor [] a = elim a [ ]
first_command-AsksFor (p ∷ argv) a = Acts-AsksFor p argv (find_command p) refl a

-- A run of the program calls nothing that asks something of a device, unless its first argument is
-- the word `reconnect`, `forceip` or `reset`.
pub main_lem :
    (responses : List Bytes → List DeviceInfo) (answer : Bytes) (throws : Action → Bool)
    (argv : List Bytes) (r : Ran)
    → main responses answer throws argv ≡ some r
    → (r.actions ≡ []) ⊎ AsksFor argv
main_lem responses answer throws argv r h = elim (main-asked responses answer throws argv) [
  | inl e ↦ inl (sym (ap asked h) ∙ e)
  | inr a ↦ inr (first_command-AsksFor argv a)
]
