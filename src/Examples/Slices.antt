-- ===== src/Examples/Slices.antt =====
-- Two slices of one buffer.
use turnserver_v.Base.{◌≡◌, [], ◌∷◌, none, some, ◌==◌, if◌then◌else◌, arith, ◌>>=◌, map}
use turnserver_v.Memory.Slice.{Heap, MemSlice, adjust_begin_pointer, adjust_end_pointer}
use turnserver_v.Wire.Packer.{Packer, pack}
use turnserver_v.Wire.Packer
use turnserver_v.Wire.Packer.Pushes.{init-Written}
use turnserver_v.Wire.Packer.Frame.{frame}
use turnserver_v.Memory.Taken.{take_buffer, slice_bytes, take_buffer-frame}
use turnserver_v.Memory.Slice.Window.{IsWindow, adjust-IsWindow}

-- Four bytes at address 7, which one slice holds.
abbrev one_buffer : Heap
one_buffer = λ x.
    if x == 7
    then some (record { ref_cnt = 1; bytes = some 1 ∷ some 2 ∷ some 3 ∷ some 4 ∷ [] })
    else none

abbrev window : MemSlice
window = record { buffer = some 7; begin_offset = 1; end_offset = 3 }

abbrev nowhere : MemSlice
nowhere = record { buffer = none; begin_offset = 0; end_offset = 0 }

window-IsWindow : IsWindow 4 window
window-IsWindow = omega arith

-- Back by two, which is before the start, and then the end forward by nine.
adjust-IsWindow_example :
    IsWindow 4 (adjust_end_pointer 9 4 (adjust_begin_pointer 0xfffffffe window))
adjust-IsWindow_example = adjust-IsWindow 0xfffffffe 9 4 window window-IsWindow

take_buffer-frame_example :
    (s : MemSlice) × (h' : Heap) × (p' : Packer) × ((pack (Packer.init 64)
        >>= take_buffer 9 one_buffer)
      ≡ some (s, h', p'))
    × (slice_bytes s h' ≡ some (map some (frame [])))
    × (p'.mem ≡ none)
take_buffer-frame_example =
    take_buffer-frame 9 one_buffer (Packer.init 64) [] (init-Written 64) (omega arith)
