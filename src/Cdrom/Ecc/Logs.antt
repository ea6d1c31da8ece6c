-- ===== src/Cdrom/Ecc/Logs.antt =====
-- The tables of the error correction in mame-chd-src/src/lib/util/cdrom.cpp.
use libchdman_rs.Prelude.{ℕ, List, [], ◌∷◌}

-- cdrom_file::ecclow.
unfoldable pub ecclow : List ℕ
ecclow =
    0 ∷ 2 ∷ 4 ∷ 6 ∷ 8 ∷ 10 ∷ 12 ∷ 14 ∷ 16 ∷ 18 ∷ 20 ∷ 22 ∷ 24 ∷ 26 ∷ 28 ∷ 30 ∷ 32 ∷ 34 ∷ 36 ∷ 38
    ∷ 40 ∷ 42 ∷ 44 ∷ 46 ∷ 48 ∷ 50 ∷ 52 ∷ 54 ∷ 56 ∷ 58 ∷ 60 ∷ 62 ∷ 64 ∷ 66 ∷ 68 ∷ 70 ∷ 72 ∷ 74 ∷ 76
    ∷ 78 ∷ 80 ∷ 82 ∷ 84 ∷ 86 ∷ 88 ∷ 90 ∷ 92 ∷ 94 ∷ 96 ∷ 98 ∷ 100 ∷ 102 ∷ 104 ∷ 106 ∷ 108 ∷ 110 ∷ 112
    ∷ 114 ∷ 116 ∷ 118 ∷ 120 ∷ 122 ∷ 124 ∷ 126 ∷ 128 ∷ 130 ∷ 132 ∷ 134 ∷ 136 ∷ 138 ∷ 140 ∷ 142 ∷ 144
    ∷ 146 ∷ 148 ∷ 150 ∷ 152 ∷ 154 ∷ 156 ∷ 158 ∷ 160 ∷ 162 ∷ 164 ∷ 166 ∷ 168 ∷ 170 ∷ 172 ∷ 174 ∷ 176
    ∷ 178 ∷ 180 ∷ 182 ∷ 184 ∷ 186 ∷ 188 ∷ 190 ∷ 192 ∷ 194 ∷ 196 ∷ 198 ∷ 200 ∷ 202 ∷ 204 ∷ 206 ∷ 208
    ∷ 210 ∷ 212 ∷ 214 ∷ 216 ∷ 218 ∷ 220 ∷ 222 ∷ 224 ∷ 226 ∷ 228 ∷ 230 ∷ 232 ∷ 234 ∷ 236 ∷ 238 ∷ 240
    ∷ 242 ∷ 244 ∷ 246 ∷ 248 ∷ 250 ∷ 252 ∷ 254 ∷ 29 ∷ 31 ∷ 25 ∷ 27 ∷ 21 ∷ 23 ∷ 17 ∷ 19 ∷ 13 ∷ 15 ∷ 9
    ∷ 11 ∷ 5 ∷ 7 ∷ 1 ∷ 3 ∷ 61 ∷ 63 ∷ 57 ∷ 59 ∷ 53 ∷ 55 ∷ 49 ∷ 51 ∷ 45 ∷ 47 ∷ 41 ∷ 43 ∷ 37 ∷ 39 ∷ 33
    ∷ 35 ∷ 93 ∷ 95 ∷ 89 ∷ 91 ∷ 85 ∷ 87 ∷ 81 ∷ 83 ∷ 77 ∷ 79 ∷ 73 ∷ 75 ∷ 69 ∷ 71 ∷ 65 ∷ 67 ∷ 125 ∷ 127
    ∷ 121 ∷ 123 ∷ 117 ∷ 119 ∷ 113 ∷ 115 ∷ 109 ∷ 111 ∷ 105 ∷ 107 ∷ 101 ∷ 103 ∷ 97 ∷ 99 ∷ 157 ∷ 159
    ∷ 153 ∷ 155 ∷ 149 ∷ 151 ∷ 145 ∷ 147 ∷ 141 ∷ 143 ∷ 137 ∷ 139 ∷ 133 ∷ 135 ∷ 129 ∷ 131 ∷ 189 ∷ 191
    ∷ 185 ∷ 187 ∷ 181 ∷ 183 ∷ 177 ∷ 179 ∷ 173 ∷ 175 ∷ 169 ∷ 171 ∷ 165 ∷ 167 ∷ 161 ∷ 163 ∷ 221 ∷ 223
    ∷ 217 ∷ 219 ∷ 213 ∷ 215 ∷ 209 ∷ 211 ∷ 205 ∷ 207 ∷ 201 ∷ 203 ∷ 197 ∷ 199 ∷ 193 ∷ 195 ∷ 253 ∷ 255
    ∷ 249 ∷ 251 ∷ 245 ∷ 247 ∷ 241 ∷ 243 ∷ 237 ∷ 239 ∷ 233 ∷ 235 ∷ 229 ∷ 231 ∷ 225 ∷ 227 ∷ []

-- cdrom_file::ecchigh.
unfoldable pub ecchigh : List ℕ
ecchigh =
    0 ∷ 244 ∷ 245 ∷ 1 ∷ 247 ∷ 3 ∷ 2 ∷ 246 ∷ 243 ∷ 7 ∷ 6 ∷ 242 ∷ 4 ∷ 240 ∷ 241 ∷ 5 ∷ 251 ∷ 15 ∷ 14
    ∷ 250 ∷ 12 ∷ 248 ∷ 249 ∷ 13 ∷ 8 ∷ 252 ∷ 253 ∷ 9 ∷ 255 ∷ 11 ∷ 10 ∷ 254 ∷ 235 ∷ 31 ∷ 30 ∷ 234 ∷ 28
    ∷ 232 ∷ 233 ∷ 29 ∷ 24 ∷ 236 ∷ 237 ∷ 25 ∷ 239 ∷ 27 ∷ 26 ∷ 238 ∷ 16 ∷ 228 ∷ 229 ∷ 17 ∷ 231 ∷ 19
    ∷ 18 ∷ 230 ∷ 227 ∷ 23 ∷ 22 ∷ 226 ∷ 20 ∷ 224 ∷ 225 ∷ 21 ∷ 203 ∷ 63 ∷ 62 ∷ 202 ∷ 60 ∷ 200 ∷ 201
    ∷ 61 ∷ 56 ∷ 204 ∷ 205 ∷ 57 ∷ 207 ∷ 59 ∷ 58 ∷ 206 ∷ 48 ∷ 196 ∷ 197 ∷ 49 ∷ 199 ∷ 51 ∷ 50 ∷ 198
    ∷ 195 ∷ 55 ∷ 54 ∷ 194 ∷ 52 ∷ 192 ∷ 193 ∷ 53 ∷ 32 ∷ 212 ∷ 213 ∷ 33 ∷ 215 ∷ 35 ∷ 34 ∷ 214 ∷ 211
    ∷ 39 ∷ 38 ∷ 210 ∷ 36 ∷ 208 ∷ 209 ∷ 37 ∷ 219 ∷ 47 ∷ 46 ∷ 218 ∷ 44 ∷ 216 ∷ 217 ∷ 45 ∷ 40 ∷ 220
    ∷ 221 ∷ 41 ∷ 223 ∷ 43 ∷ 42 ∷ 222 ∷ 139 ∷ 127 ∷ 126 ∷ 138 ∷ 124 ∷ 136 ∷ 137 ∷ 125 ∷ 120 ∷ 140
    ∷ 141 ∷ 121 ∷ 143 ∷ 123 ∷ 122 ∷ 142 ∷ 112 ∷ 132 ∷ 133 ∷ 113 ∷ 135 ∷ 115 ∷ 114 ∷ 134 ∷ 131 ∷ 119
    ∷ 118 ∷ 130 ∷ 116 ∷ 128 ∷ 129 ∷ 117 ∷ 96 ∷ 148 ∷ 149 ∷ 97 ∷ 151 ∷ 99 ∷ 98 ∷ 150 ∷ 147 ∷ 103
    ∷ 102 ∷ 146 ∷ 100 ∷ 144 ∷ 145 ∷ 101 ∷ 155 ∷ 111 ∷ 110 ∷ 154 ∷ 108 ∷ 152 ∷ 153 ∷ 109 ∷ 104 ∷ 156
    ∷ 157 ∷ 105 ∷ 159 ∷ 107 ∷ 106 ∷ 158 ∷ 64 ∷ 180 ∷ 181 ∷ 65 ∷ 183 ∷ 67 ∷ 66 ∷ 182 ∷ 179 ∷ 71 ∷ 70
    ∷ 178 ∷ 68 ∷ 176 ∷ 177 ∷ 69 ∷ 187 ∷ 79 ∷ 78 ∷ 186 ∷ 76 ∷ 184 ∷ 185 ∷ 77 ∷ 72 ∷ 188 ∷ 189 ∷ 73
    ∷ 191 ∷ 75 ∷ 74 ∷ 190 ∷ 171 ∷ 95 ∷ 94 ∷ 170 ∷ 92 ∷ 168 ∷ 169 ∷ 93 ∷ 88 ∷ 172 ∷ 173 ∷ 89 ∷ 175
    ∷ 91 ∷ 90 ∷ 174 ∷ 80 ∷ 164 ∷ 165 ∷ 81 ∷ 167 ∷ 83 ∷ 82 ∷ 166 ∷ 163 ∷ 87 ∷ 86 ∷ 162 ∷ 84 ∷ 160
    ∷ 161 ∷ 85 ∷ []
