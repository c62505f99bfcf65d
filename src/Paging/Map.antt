-- ===== src/Paging/Map.antt =====
-- `map_page` on a sound memory: the address is translated, and every other one as before.
use crap_os.Base.{
  ℕ, ◌+◌, ◌%◌, ◌≤◌, ◌≡◌, refl, ap, ◌∙◌, sym, Bool, true, Option, some, List, [], ◌∷◌, length,
  if◌then◌else◌, arith, bit_or, ◌>>=◌,
}
use crap_os.Pages.{virt}
use crap_os.Paging.{PageState, absent, frame, get_physical_addr, intermediate, leaf, map_page}
use crap_os.Paging.Create.{IsExtension-trans}
use crap_os.Paging.Obtain.{obtain}
use crap_os.Paging.Tables.{IsSound}
use crap_os.Paging.Walk.{get_physical_addr-walk, index, index-lt}
use crap_os.Tasks.Outcome.{done}
use crap_os.Paging.Way.{
  same_page, written-IsSound, intermediate-odd, Way, after, translation, leaf-present,
}

-- The memory is sound, in the higher half, and has three free pages. Then the call returns, the memory
-- is sound again and at most three pages fewer are free, an address in the page translates to the frame that was written and its offset,
-- and every other address to what it was.
pub map_page-translates :
    (label : ℕ → Option (List ℕ)) (root : ℕ) (s : PageState) (free : List ℕ)
    (virtual_addr physical_addr flags : ℕ) (user : Bool)
    → IsSound label root s free
    → 3 ≤ length free
    → (label' : ℕ → Option (List ℕ)) × (s' : PageState) × (free' : List ℕ) × (map_page
          (virt true root)
          virtual_addr
          physical_addr
          flags
          user
          s
        ≡ done s')
      × IsSound label' root s' free'
      × (length free ≤ length free' + 3)
      × ((w : ℕ)
          → get_physical_addr (virt true root) w s'.1 ≡ (
              if same_page virtual_addr w
              then some (bit_or (frame (leaf physical_addr flags)) (w % 4096))
              else get_physical_addr (virt true root) w s.1))
unfolding map_page
map_page-translates label root s free v physical flags user h room =
    let (low, odd) = intermediate-odd user in
    let a =
      obtain label root root (index 3 v) [] (intermediate user) s h.tree.root_label (omega arith)
        (index-lt 3 v) low odd free h (omega arith) in
    let ca = a.cost in
    let b =
      obtain a.label' root a.q (index 2 v) (index 3 v ∷ []) (intermediate user) a.s' a.child
        (omega arith) (index-lt 2 v) low odd a.free' a.sound (omega arith) in
    let cb = b.cost in
    let c =
      obtain b.label' root b.q (index 1 v) (index 2 v ∷ index 3 v ∷ []) (intermediate user) b.s'
        b.child (omega arith) (index-lt 1 v) low odd b.free' b.sound (omega arith) in
    let ab = IsExtension-trans label a.label' b.label' s.1 a.s'.1 b.s'.1 a.extension b.extension in
    let whole = IsExtension-trans label b.label' c.label' s.1 b.s'.1 c.s'.1 ab c.extension in
    let bc =
      IsExtension-trans a.label' b.label' c.label' a.s'.1 b.s'.1 c.s'.1 b.extension c.extension in
    let top =
      bc.present root (index 3 v) [] (a.extension.labels root [] h.tree.root_label) (index-lt 3 v)
        a.here in
    let mid =
      c.extension.present a.q (index 2 v) (index 3 v ∷ [])
        (b.extension.labels a.q (index 3 v ∷ []) a.child) (index-lt 2 v) b.here in
    let way : Way c.label' root a.q b.q c.q v c.s'.1 = record {
      root_label = whole.labels root [] h.tree.root_label;
      label3 = bc.labels a.q (index 3 v ∷ []) a.child;
      label2 = c.extension.labels b.q (index 2 v ∷ index 3 v ∷ []) b.child;
      label1 = c.child;
      here3 = ap absent top ∙ a.here;
      next3 = ap frame top ∙ a.next;
      here2 = ap absent mid ∙ b.here;
      next2 = ap frame mid ∙ b.next;
      here1 = c.here;
      next1 = c.next;
    } in
    let x = leaf physical flags in
    let alive = leaf-present physical flags in
    (
      c.label',
      (c.s'.0, after c.label' root a.q b.q c.q v x c.s' c.free' c.sound way alive),
      c.free',
      rw (a.result, b.result, c.result, map_page) refl,
      written-IsSound c.label' root c.q (index 0 v) x (index 1 v ∷ index 2 v ∷ index 3 v ∷ []) c.s'
          c.free' c.sound c.child refl (index-lt 0 v),
      omega (arith, ca, cb, c.cost),
      λ w.
          translation c.label' root a.q b.q c.q v x c.s' c.free' c.sound way alive w
          ∙ ap (λ o. if same_page v w then some (bit_or (frame x) (w % 4096)) else o)
              (get_physical_addr-walk root w c.s'.1
                ∙ ap (λ o. o >>= λ pte. some (bit_or (frame pte) (w % 4096)))
                    (whole.walks 3 root w [] h.tree.root_label refl)
                ∙ sym (get_physical_addr-walk root w s.1)),
    )
