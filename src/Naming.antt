-- ===== src/Naming.antt =====
-- naming.py: the names of peers. The first two bytes of SHA-256 and the library's test for printable
-- characters are parameters.
use Prim.Native.Char.{Char, code}
use Prim.Native.String.{[] as nil, ◌∷◌ as ◌∷ₛ◌, ◌++◌ as ◌⧺◌}
use lan_chat.Base.{
  ℕ, zero, suc, ◌%◌, String, Bool, not, ◌&&◌, ◌||◌, List, [], ◌∷◌, length, ◌==◌, if◌then◌else◌,
}
use lan_chat.Rooms.Types.{clipped}

unfoldable pub skate_tricks : List String
skate_tricks =
    "Kickflip" ∷ "Heelflip" ∷ "360Flip" ∷ "Hardflip" ∷ "VarialKickflip" ∷ "PopShuvit" ∷ "Bigspin"
    ∷ "ShoveIt" ∷ "DoubleKickflip" ∷ "DoubleHeelflip" ∷ "DoubleShuvit" ∷ "TreFlip" ∷ "DoubleTreFlip"
    ∷ "Frontside180Shuvit" ∷ "Backside180Shuvit" ∷ "PopFrontsideShuvit" ∷ "PopBacksideShuvit"
    ∷ "Boardslide" ∷ "Lipslide" ∷ "SmithGrind" ∷ "Nosegrind" ∷ "Bluntslide" ∷ "CrookedGrind"
    ∷ "FeebleGrind" ∷ "IcePickGrind" ∷ "Fifty50Grind" ∷ "FiveZeroGrind" ∷ "Tailslide" ∷ "Noseslide"
    ∷ "PidginGrind" ∷ "RockToFake" ∷ "Manual" ∷ "Nosemanual" ∷ "Nosepress" ∷ "Tailpress"
    ∷ "BluntToFeeble" ∷ "Frontside505" ∷ "Backside505" ∷ "SmithSlide" ∷ "CrookedSlide" ∷ "McTwist"
    ∷ "AirToFakie" ∷ "Stalefish" ∷ "MelonGrab" ∷ "MethodAir" ∷ "IndyGrab" ∷ "MuteGrab" ∷ "Tantrum"
    ∷ "Rodeo" ∷ "CabinAir" ∷ "Invert" ∷ "Tailgrab" ∷ "Handplant" ∷ "RockSolid" ∷ "BottleFlip"
    ∷ "Hangten" ∷ "Caballerial" ∷ "AirToReverse" ∷ "BluntAir" ∷ "StarPlant" ∷ "PhantomFlip"
    ∷ "SwitchKickflip" ∷ "SwitchHeelflip" ∷ "NollieKickflip" ∷ "FakieFlip" ∷ "BlindFlip"
    ∷ "Impossible" ∷ "DoubleImpossible" ∷ "ShoveIt180" ∷ "PopFrontside180" ∷ "PopBackside180"
    ∷ "TreFlipHardflip" ∷ "KickflipBigspin" ∷ "HeelflipBigspin" ∷ "VarialShuvit" ∷ "Caveman"
    ∷ "CatLeap" ∷ "Coneflip" ∷ "SwitchPhantom" ∷ "FakiePhantom" ∷ "NollieHeelflip" ∷ "BlindHeelflip"
    ∷ "DoubleMcTwist" ∷ "QuadFlip" ∷ "TripleShuvit" ∷ "Kickflip540" ∷ "Heelflip360" ∷ "LaserHack"
    ∷ "MegaFlip" ∷ "SwitchBigspin" ∷ "FakieBigspin" ∷ "BlindBigspin" ∷ "SwitchHardflip"
    ∷ "NollieHeelflip" ∷ "DoubleTreFlip" ∷ "TripleKickflip" ∷ "QuadrupleShuvit" ∷ "FrontsideAir"
    ∷ "BacksideAir" ∷ "InlineAir" ∷ "Rosalin" ∷ "Rosallind" ∷ "BakerAir" ∷ "Caballerial" ∷ "Ollie"
    ∷ "PopShoveIt" ∷ "Frontside180Air" ∷ "Backside180Air" ∷ "Frontside540" ∷ "Backside540"
    ∷ "Frontside720" ∷ "Backside720" ∷ "KickflipNosegrind" ∷ "HeelflipBluntslide" ∷ "VarialLipslide"
    ∷ "PopFrontside" ∷ "PopBackside" ∷ "FrontsidePopShuvit" ∷ []

unfoldable pub trick_modifiers : List String
trick_modifiers =
    "Flip" ∷ "DoubleFlip" ∷ "TreFlip" ∷ "Hardflip" ∷ "Phantom" ∷ "Varial" ∷ "Nosevarial"
    ∷ "Toevarial" ∷ "Kickflip" ∷ "Heelflip" ∷ "180" ∷ "360" ∷ "540" ∷ "720" ∷ "900" ∷ "DoubleSpin"
    ∷ "TripleSpin" ∷ "HalfCab" ∷ "FullCab" ∷ "QuarterFlip" ∷ "HalfFlip" ∷ "Indy" ∷ "Mute"
    ∷ "Stalefish" ∷ "Melon" ∷ "Method" ∷ "Tailgrab" ∷ "Handplant" ∷ "Rodeo" ∷ "Cabin" ∷ "Slot"
    ∷ "Roastbeef" ∷ "Nosgrass" ∷ "Tantrum" ∷ "Air" ∷ "Grab" ∷ "Pinch" ∷ "Huck" ∷ "Lazer"
    ∷ "Boardslide" ∷ "Lipslide" ∷ "Smith" ∷ "Blunt" ∷ "Feeble" ∷ "Crooked" ∷ "Nosegrind"
    ∷ "Tailslide" ∷ "Pidgin" ∷ "Rockslide" ∷ "Frontside" ∷ "Backside" ∷ "Switch" ∷ "Fakie" ∷ "Blind"
    ∷ "Nollie" ∷ "Regular" ∷ "Goofy" ∷ "PopShuvit" ∷ "Bigspin" ∷ "ShoveIt" ∷ "Mega" ∷ "Giga"
    ∷ "Ultra" ∷ "Hyper" ∷ "Super" ∷ "Micro" ∷ "Mini" ∷ "Max" ∷ "Turbo" ∷ "Mach" ∷ "Atomic"
    ∷ "Quantum" ∷ "Cosmic" ∷ "Solar" ∷ "Coneflip" ∷ "Caveman" ∷ "CatLeap" ∷ "Barkley" ∷ "Ollie"
    ∷ "Impossible" ∷ "DoubleImp" ∷ "TreFlip" ∷ "KickflipBigspin" ∷ "HeelflipBigspin"
    ∷ "VarialShuvit" ∷ "SwitchHardflip" ∷ "QuadFlip" ∷ "TripleShuvit" ∷ "QuadrupleShuvit"
    ∷ "McTwist" ∷ "Caballerial" ∷ "StarPlant" ∷ "RockSolid" ∷ []

-- `xs[i]`, "" where there is no such item
abbrev pub item : ℕ → List String → String
item i [] = ""
item zero (x ∷ xs) = x
item (suc i) (x ∷ xs) = item i xs

-- `digest` gives the first two bytes of the hash of an id.
unfoldable pub friendly_name : (String → ℕ × ℕ) → String → String
unfolding skate_tricks trick_modifiers
friendly_name digest peer_id =
    let (first, second) = digest peer_id in
    item (second % length trick_modifiers) trick_modifiers
    ⧺ item (first % length skate_tricks) skate_tricks

-- One of the characters `<>[]` and the backtick.
abbrev pub is_markup : Char → Bool
is_markup c = (code c == 60) || (code c == 62) || (code c == 91) || (code c == 93) || (code c == 96)

abbrev pub joined : (Char → Bool) → String → String
joined test nil = nil
joined test (c ∷ₛ s) = let rest = joined test s in if test c then c ∷ₛ rest else rest

unfoldable pub clean_name : (Char → Bool) → String → String
clean_name is_printable name = clipped 64 (joined (λ c. is_printable c && not (is_markup c)) name)
